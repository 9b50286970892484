-- ===== src/Regex/Derivative.antt =====
-- The matcher decides which texts an expression matches.
use Prim.Native.Nat.{ℕ}
use mathlib.Core.Path.{◌≡◌, refl, sym, ap, ◌∙◌}
use mathlib.Core.Logic.{◌↔◌, ◌⊎◌, inl, inr}
use mathlib.Core.Bool.{true}
use mathlib.Core.List.{List, [], ◌∷◌, ◌++◌}
use inroa.Base.{Text, and_iff, or_iff, Bool-cases, append-eq-nil}
use inroa.Regex.{
  Regex, void, eps, set, seq, alt, both, star, Star, done, more, Matches, nullable, seq_of, alt_of,
  derivative, test,
}

nullable_sound : (r : Regex) → nullable r ≡ true → Matches r []
unfolding nullable
nullable_sound void h = cc
nullable_sound eps h = refl
nullable_sound (set p) h = cc
nullable_sound (seq a b) h =
    let (x, y) = (and_iff _ _).0 h in ([], [], refl, nullable_sound a x, nullable_sound b y)
nullable_sound (alt a b) h = elim ((or_iff _ _).0 h) [
  | inl x ↦ inl (nullable_sound a x)
  | inr y ↦ inr (nullable_sound b y)
]
nullable_sound (both a b) h =
    let (x, y) = (and_iff _ _).0 h in (nullable_sound a x, nullable_sound b y)
nullable_sound (star a) h = done

nullable_complete : (r : Regex) (s : Text) → s ≡ [] → Matches r s → nullable r ≡ true
unfolding nullable
nullable_complete void s e m = absurd m
nullable_complete eps s e m = refl
nullable_complete (set p) s e (c, f, h) = cc
nullable_complete (seq a b) s e (u, v, f, m, n) =
    let (x, y) = append-eq-nil u v (sym f ∙ e) in
    (and_iff _ _).1 (nullable_complete a u x m, nullable_complete b v y n)
nullable_complete (alt a b) s e (inl m) = (or_iff _ _).1 (inl (nullable_complete a s e m))
nullable_complete (alt a b) s e (inr m) = (or_iff _ _).1 (inr (nullable_complete b s e m))
nullable_complete (both a b) s e (m, n) =
    (and_iff _ _).1 (nullable_complete a s e m, nullable_complete b s e n)
nullable_complete (star a) s e m = refl

pub seq_of_iff : (a b : Regex) (s : Text) → Matches (seq_of a b) s ↔ Matches (seq a b) s
unfolding seq_of
seq_of_iff void b s = (λ h. absurd h, λ h. h.3)
seq_of_iff eps b s = (λ h. ([], s, refl, refl, h), λ (u, v, e, f, h). rw (e, f) h)
seq_of_iff a b s = (λ h. h, λ h. h)

pub alt_of_iff : (a b : Regex) (s : Text) → Matches (alt_of a b) s ↔ Matches (alt a b) s
unfolding alt_of
alt_of_iff void b s = (inr, λ h. elim h [ inl x ↦ absurd x | inr y ↦ y ])
alt_of_iff a void s = (inl, λ h. elim h [ inl x ↦ x | inr y ↦ absurd y ])
alt_of_iff a b s = (λ h. h, λ h. h)

derivative_sound : (c : ℕ) (r : Regex) (s : Text) → Matches (derivative c r) s → Matches r (c ∷ s)
unfolding derivative
derivative_sound c void s m = absurd m
derivative_sound c eps s m = absurd m
derivative_sound c (set p) s m = elim (Bool-cases (p c)) [
  | inl h ↦ (c, ap (λ t. c ∷ t) (rw h at m), h)
  | inr h ↦ absurd (rw h at m)
]
derivative_sound c (seq a b) s m = elim ((alt_of_iff _ _ s).0 m) [
  | inl x ↦
      let (u, v, e, k, n) = (seq_of_iff _ _ s).0 x in
      (c ∷ u, v, ap (λ t. c ∷ t) e, derivative_sound c a u k, n)
  | inr y ↦ elim (Bool-cases (nullable a)) [
    | inl h ↦ ([], c ∷ s, refl, nullable_sound a h, derivative_sound c b s (rw h at y))
    | inr h ↦ absurd (rw h at y)
  ]
]
derivative_sound c (alt a b) s m = elim ((alt_of_iff _ _ s).0 m) [
  | inl x ↦ inl (derivative_sound c a s x)
  | inr y ↦ inr (derivative_sound c b s y)
]
derivative_sound c (both a b) s (m, n) = (derivative_sound c a s m, derivative_sound c b s n)
derivative_sound c (star a) s m =
    let (u, v, e, k, n) = (seq_of_iff _ _ s).0 m in
    more (derivative_sound c a u k) n (ap (λ t. c ∷ t) e)

-- What the first character leaves of a text cut in two.
cut {ℓ} :
    {A : Type ℓ} (u v : List A) {c : A} {s : List A}
    → c ∷ s ≡ u ++ v
    → ((u ≡ []) × (v ≡ c ∷ s)) ⊎ ((u' : List A) × (u ≡ c ∷ u') × (s ≡ u' ++ v))
cut [] v e = inl (refl, sym e)
cut (d ∷ u) v e = inr (u, cc, cc)

-- The first piece that is not empty.
Star-cut :
    {P : Text → Type 0} {c : ℕ} {s t : Text}
    → Star P t
    → t ≡ c ∷ s
    → (u : Text) × (v : Text) × (s ≡ u ++ v) × P (c ∷ u) × Star P v
Star-cut done e = cc
Star-cut (more {u} {v} h k f) e = elim (cut u v (sym e ∙ f)) [
  | inl (eu, ev) ↦ Star-cut k ev
  | inr (u', eu, es) ↦ (u', v, es, rw eu at h, k)
]

derivative_complete :
    (c : ℕ) (r : Regex) (s : Text) → Matches r (c ∷ s) → Matches (derivative c r) s
unfolding derivative
derivative_complete c void s m = absurd m
derivative_complete c eps s m = cc
derivative_complete c (set p) s (d, e, h) =
    let same : c ≡ d = cc in let rest : s ≡ [] = cc in rw (same, h) rest
derivative_complete c (seq a b) s (u, v, e, m, n) = elim (cut u v e) [
  | inl (eu, ev) ↦
      (alt_of_iff _ _ s).1
        (inr (rw (nullable_complete a u eu m) (derivative_complete c b s (rw ev at n))))
  | inr (u', eu, es) ↦
      (alt_of_iff _ _ s).1
        (inl ((seq_of_iff _ _ s).1 (u', v, es, derivative_complete c a u' (rw eu at m), n)))
]
derivative_complete c (alt a b) s (inl m) = (alt_of_iff _ _ s).1 (inl (derivative_complete c a s m))
derivative_complete c (alt a b) s (inr m) = (alt_of_iff _ _ s).1 (inr (derivative_complete c b s m))
derivative_complete c (both a b) s (m, n) =
    (derivative_complete c a s m, derivative_complete c b s n)
derivative_complete c (star a) s m =
    let (u, v, e, k, n) = Star-cut m refl in
    (seq_of_iff _ _ s).1 (u, v, e, derivative_complete c a u k, n)

-- The matcher answers true exactly on the texts that match.
pub test_iff : (r : Regex) (s : Text) → (test r s ≡ true) ↔ Matches r s
unfolding test
test_iff r [] = (nullable_sound r, nullable_complete r [] refl)
test_iff r (c ∷ s) =
    let (sound, complete) = test_iff (derivative c r) s in
    (λ h. derivative_sound c r s (sound h), λ m. complete (derivative_complete c r s m))
