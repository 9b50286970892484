-- ===== src/Search/Query.antt =====
-- Which queries are sent.
use Prim.Native.Nat.{ℕ, ◌≤◌}
use mathlib.Core.Path.{◌≡◌, refl}
use mathlib.Core.Logic.{◌↔◌, ◌⊎◌, inl, inr}
use mathlib.Core.Bool.{true, false, not}
use mathlib.Core.Option.{some}
use mathlib.Core.List.{[], ◌∷◌}
use inroa.Base.{
  Text, all, any, keep, text_eq, ok, ok_iff, Bool-cases, All, is_space, Holds, any-Holds_iff,
}
use native.Mathlib.Omega.{arith}
use inroa.Search.{is_alnum, submit}

keep-all : (s : Text) → all is_alnum (keep is_alnum s) ≡ true
keep-all [] = refl
keep-all (c ∷ s) = elim (Bool-cases (is_alnum c)) [
  | inl in_class ↦ rw (keep, in_class, in_class) (keep-all s)
  | inr other ↦ rw (keep, other) (keep-all s)
]

keep-any : (s : Text) → not (text_eq (keep is_alnum s) []) ≡ any is_alnum s
keep-any [] = refl
keep-any (c ∷ s) = elim (Bool-cases (is_alnum c)) [
  | inl in_class ↦ rw (keep, in_class) refl
  | inr other ↦ rw (keep, other) (keep-any s)
]

-- A letter from A to Z or a digit, by its code.
abbrev pub IsLetterOrDigit : ℕ → Type 0
IsLetterOrDigit c = ((48 ≤ c) × (c ≤ 57)) ⊎ ((65 ≤ c) × (c ≤ 90)) ⊎ ((97 ≤ c) × (c ≤ 122))

is_alnum-IsLetterOrDigit : (c : ℕ) → is_alnum c ≡ true → IsLetterOrDigit c
is_alnum-IsLetterOrDigit c h = ground arith

IsLetterOrDigit-is_alnum : (c : ℕ) → IsLetterOrDigit c → is_alnum c ≡ true
IsLetterOrDigit-is_alnum c h = ground arith

all-no_space : (s : Text) → all is_alnum s ≡ true → All (λ c. is_space c ≡ false) s
all-no_space [] h = tt
all-no_space (c ∷ s) h = elim (Bool-cases (is_alnum c)) [
  | inl in_class ↦
      let no_space : is_space c ≡ false = ground arith in
      (no_space, all-no_space s (rw in_class at h))
  | inr other ↦ cc (rw other at h)
]

-- If `trim` leaves a text without white space as it is, the form is sent exactly if the query holds a
-- letter from A to Z, small or large, or a digit.
pub submit_iff :
    (trim : Text → Text) (value : Text)
    → ((s : Text) → All (λ c. is_space c ≡ false) s → trim s ≡ s)
    → (submit trim (some value) ≡ ok true) ↔ Holds IsLetterOrDigit value
unfolding submit
submit_iff trim value trims =
    let kept = keep is_alnum value in
    let trimmed : trim kept ≡ kept = trims kept (all-no_space kept (keep-all value)) in
    rw (trimmed, keep-any value)
      (ok_iff (
        any-Holds_iff IsLetterOrDigit is_alnum is_alnum-IsLetterOrDigit IsLetterOrDigit-is_alnum
          value))
