-- ===== src/Base/Run.antt =====
-- A script's function: it works on a state, and an error that it throws leaves the state as it is by
-- then.
use mathlib.Core.Option.{Option, none, some}
use inroa.Base.Throw.{Result, ok, throws, type_error}

abbrev pub Script : Type 0 → Type 0 → Type 0
Script S A = S → Result A × S

module _ {S : Type 0} where
  abbrev pub resume : {A B : Type 0} → (A → Script S B) → Result A × S → Result B × S
  resume k (ok a, s) = k a s
  resume k (throws f, s) = (throws f, s)

  infixl 5 ◌>>=◌ ◌>>◌
  abbrev pub ◌>>=◌ : {A B : Type 0} → Script S A → (A → Script S B) → Script S B
  ◌>>=◌ m k s = resume k (m s)

  abbrev pub ◌>>◌ : {A B : Type 0} → Script S A → Script S B → Script S B
  ◌>>◌ m n = m >>= λ _. n

  abbrev pub get : Script S S
  get s = (ok s, s)

  abbrev pub modify : (S → S) → Script S Unit
  modify f s = (ok tt, f s)

  abbrev pub done : Script S Unit
  done s = (ok tt, s)

  abbrev pub fail : {A : Type 0} → Script S A
  fail s = (throws type_error, s)

  -- A member of `null` throws.
  abbrev pub some_or_fail : {A : Type 0} → Option A → Script S A
  some_or_fail none = fail
  some_or_fail (some a) = λ s. (ok a, s)
