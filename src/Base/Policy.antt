-- ===== src/Base/Policy.antt =====
-- What the calls of a script may do to its state: a relation between the state before a call and the
-- one after it, which holds for a function of the script if it holds for each call that it makes.
use mathlib.Core.Bool.{Bool, true, false}
use mathlib.Core.Option.{Option, none, some}
use inroa.Base.Tests.{if◌then◌else◌}
use inroa.Base.Throw.{Result, ok, throws}
use inroa.Base.Run.{Script, resume, ◌>>=◌, get, done, some_or_fail}

pub record Policy (S : Type 0) : Type 1 where
  pub Allows : S → S → Type 0
  pub stays : (s : S) → Allows s s
  pub trans : (s t u : S) → Allows s t → Allows t u → Allows s u

-- A policy on what has to stay true.
abbrev pub invariant_policy : {S : Type 0} → (S → Type 0) → Policy S
invariant_policy Holds = record {
  Allows = λ s t. Holds s → Holds t;
  stays = λ s h. h;
  trans = λ s t u first second h. second (first h);
}

-- A call does what the policy allows, whatever the state, and whether it throws or not.
pub record Keeps {S A : Type 0} (p : Policy S) (m : Script S A) : Type 0 where
  pub allows : (s : S) → p.Allows s (m s).1

module _ {S : Type 0} {p : Policy S} where
  resume-Allows :
      {A B : Type 0} (s : S) (k : A → Script S B) (r : Result A × S)
      → p.Allows s r.1
      → ((a : A) → Keeps p (k a))
      → p.Allows s (resume k r).1
  resume-Allows s k (ok a, t) h hk = p.trans s t (k a t).1 h ((hk a).allows t)
  resume-Allows s k (throws f, t) h hk = h

  pub >>=-Keeps :
      {A B : Type 0} (m : Script S A) (k : A → Script S B)
      → Keeps p m
      → ((a : A) → Keeps p (k a))
      → Keeps p (m >>= k)
  >>=-Keeps m k hm hk = record { allows = λ s. resume-Allows s k (m s) (hm.allows s) hk }

  pub get-Keeps : Keeps p get
  get-Keeps = record { allows = p.stays }

  pub done-Keeps : Keeps p done
  done-Keeps = record { allows = p.stays }

  pub some_or_fail-Keeps : {A : Type 0} (o : Option A) → Keeps p (some_or_fail o)
  some_or_fail-Keeps none = record { allows = p.stays }
  some_or_fail-Keeps (some a) = record { allows = p.stays }

  pub if-Keeps :
      {A : Type 0} (b : Bool) (m n : Script S A)
      → Keeps p m
      → Keeps p n
      → Keeps p (if b then m else n)
  if-Keeps true m n hm hn = hm
  if-Keeps false m n hm hn = hn

  -- A value that is read from the state, which fails if it is not there.
  pub read-Keeps : {A : Type 0} (f : S → Option A) → Keeps p (λ s. some_or_fail (f s) s)
  read-Keeps f = record { allows = λ s. (some_or_fail-Keeps (f s)).allows s }
