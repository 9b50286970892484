-- ===== src/Regex/Shape.antt =====
-- What the common forms of an expression match: runs of one class, and fixed texts.
use Prim.Native.Nat.{ℕ, zero, suc, ◌+◌, ◌≤◌}
use mathlib.Core.Path.{◌≡◌, refl, ap}
use mathlib.Core.Logic.{◌↔◌, ◌≢◌, inl, inr}
use mathlib.Core.Bool.{Bool, true}
use mathlib.Core.List.{[], ◌∷◌, ◌++◌}
use native.Mathlib.Omega.{arith}
use inroa.Base.{Text, All, All-append, length}
use inroa.Regex.{set, star, Star, done, more, Matches, plus, repeat, repeat_to, literal, char}

-- Every character of the text is in the class.
abbrev pub InClass : (ℕ → Bool) → Text → Type 0
InClass p s = All (λ c. p c ≡ true) s

InClass-append : (p : ℕ → Bool) (s t : Text) → InClass p (s ++ t) ↔ (InClass p s × InClass p t)
InClass-append p s t = All-append (λ c. p c ≡ true) s t

Star→InClass : {p : ℕ → Bool} {s : Text} → Star (Matches (set p)) s → InClass p s
Star→InClass done = tt
Star→InClass (more (c, eu, h) k e) = rw (e, eu) (h, Star→InClass k)

InClass→Star : (p : ℕ → Bool) (s : Text) → InClass p s → Star (Matches (set p)) s
InClass→Star p [] h = done
InClass→Star p (c ∷ s) (h, hs) = more (c, refl, h) (InClass→Star p s hs) refl

pub Matches-star_iff : (p : ℕ → Bool) (s : Text) → Matches (star (set p)) s ↔ InClass p s
Matches-star_iff p s = (Star→InClass, InClass→Star p s)

pub Matches-plus_iff :
    (p : ℕ → Bool) (s : Text) → Matches (plus (set p)) s ↔ ((s ≢ []) × InClass p s)
Matches-plus_iff p s = (to, from s)
  where
    to : Matches (plus (set p)) s → (s ≢ []) × InClass p s
    to (u, v, e, (c, eu, h), k) = rw (e, eu) (λ x. cc, (h, Star→InClass k))

    from : (t : Text) → (t ≢ []) × InClass p t → Matches (plus (set p)) t
    from [] (n, h) = absurd (n refl)
    from (c ∷ t) (n, (h, hs)) = (c ∷ [], t, refl, (c, refl, h), InClass→Star p t hs)

repeat→InClass :
    (n : ℕ) (p : ℕ → Bool) (s : Text) → Matches (repeat n (set p)) s → (length s ≡ n) × InClass p s
unfolding repeat
repeat→InClass zero p s e = rw e (refl, tt)
repeat→InClass (suc n) p s (u, v, e, (c, eu, h), k) =
    let (l, hs) = repeat→InClass n p v k in rw (e, eu) (ap suc l, (h, hs))

InClass→repeat :
    (n : ℕ) (p : ℕ → Bool) (s : Text) → length s ≡ n → InClass p s → Matches (repeat n (set p)) s
unfolding repeat
InClass→repeat zero p [] l h = refl
InClass→repeat zero p (c ∷ s) l h = absurd (omega arith)
InClass→repeat (suc n) p [] l h = absurd (omega arith)
InClass→repeat (suc n) p (c ∷ s) l (h, hs) =
    (c ∷ [], s, refl, (c, refl, h), InClass→repeat n p s (omega arith) hs)

pub Matches-repeat_iff :
    (n : ℕ) (p : ℕ → Bool) (s : Text)
    → Matches (repeat n (set p)) s ↔ ((length s ≡ n) × InClass p s)
Matches-repeat_iff n p s = (repeat→InClass n p s, λ (l, h). InClass→repeat n p s l h)

-- `[…]{m,m+n}`
repeat_to→InClass :
    (m n : ℕ) (p : ℕ → Bool) (s : Text)
    → Matches (repeat_to m n (set p)) s
    → (m ≤ length s) × (length s ≤ m + n) × InClass p s
unfolding repeat_to
repeat_to→InClass zero zero p s e = rw e (omega arith, omega arith, tt)
repeat_to→InClass zero (suc n) p s (inr e) = rw e (omega arith, omega arith, tt)
repeat_to→InClass zero (suc n) p s (inl (u, v, e, (c, eu, h), k)) =
    let (l, m, hs) = repeat_to→InClass zero n p v k in
    rw (e, eu) (omega arith, omega arith, (h, hs))
repeat_to→InClass (suc m) n p s (u, v, e, (c, eu, h), k) =
    let (l, m, hs) = repeat_to→InClass m n p v k in rw (e, eu) (omega arith, omega arith, (h, hs))

InClass→repeat_to :
    (m n : ℕ) (p : ℕ → Bool) (s : Text)
    → m ≤ length s
    → length s ≤ m + n
    → InClass p s
    → Matches (repeat_to m n (set p)) s
unfolding repeat_to
InClass→repeat_to zero zero p [] l k h = refl
InClass→repeat_to zero zero p (c ∷ s) l k h = absurd (omega arith)
InClass→repeat_to zero (suc n) p [] l k h = inr refl
InClass→repeat_to zero (suc n) p (c ∷ s) l k (h, hs) =
    inl (c ∷ [], s, refl, (c, refl, h), InClass→repeat_to zero n p s (omega arith) (omega arith) hs)
InClass→repeat_to (suc m) n p [] l k h = absurd (omega arith)
InClass→repeat_to (suc m) n p (c ∷ s) l k (h, hs) =
    (c ∷ [], s, refl, (c, refl, h), InClass→repeat_to m n p s (omega arith) (omega arith) hs)

pub Matches-repeat_to_iff :
    (m n : ℕ) (p : ℕ → Bool) (s : Text)
    → Matches (repeat_to m n (set p)) s ↔ ((m ≤ length s) × (length s ≤ m + n) × InClass p s)
Matches-repeat_to_iff m n p s =
    (repeat_to→InClass m n p s, λ (l, k, h). InClass→repeat_to m n p s l k h)

-- A fixed text.
literal_sound : (t s : Text) → Matches (literal t) s → s ≡ t
unfolding literal
literal_sound [] s e = e
literal_sound (c ∷ t) s (u, v, e, (d, eu, h), k) =
    let same : d ≡ c = ground arith in rw (e, eu, same, literal_sound t v k)

literal_self : (t : Text) → Matches (literal t) t
unfolding literal
literal_self [] = refl
literal_self (c ∷ t) = (c ∷ [], t, refl, (c, refl, ground arith), literal_self t)

pub Matches-literal_iff : (t s : Text) → Matches (literal t) s ↔ (s ≡ t)
Matches-literal_iff t s = (literal_sound t s, λ e. rw e (literal_self t))

pub Matches-char_iff : (c : ℕ) (s : Text) → Matches (char c) s ↔ (s ≡ c ∷ [])
Matches-char_iff c s =
    (λ (d, e, h). let same : d ≡ c = ground arith in rw (e, same), λ e. (c, e, ground arith))
