-- ===== src/Base/Members.antt =====
-- Lists that hold an item of a kind.
use mathlib.Core.Path.{◌≡◌, refl, ap}
use mathlib.Core.Logic.{◌↔◌, inl, inr}
use mathlib.Core.Bool.{Bool, true}
use mathlib.Core.List.{List, [], ◌∷◌, ◌++◌}
use inroa.Base.Lists.{any}
use inroa.Base.Tests.{Bool-cases}

-- The list holds an item of the kind.
abbrev pub Holds {ℓ κ} : {A : Type ℓ} → (A → Type κ) → List A → Type (ℓ ⊔ κ)
Holds {A} P xs = (before : List A) × (x : A) × (after : List A) × (xs ≡ before ++ x ∷ after) × P x

any-Holds {ℓ κ} :
    {A : Type ℓ} (P : A → Type κ) (p : A → Bool)
    → ((x : A) → p x ≡ true → P x)
    → (xs : List A) → any p xs ≡ true
    → Holds P xs
any-Holds P p h [] e = cc
any-Holds P p h (x ∷ xs) e = elim (Bool-cases (p x)) [
  | inl holds ↦ ([], x, xs, refl, h x holds)
  | inr other ↦
      let (before, y, after, at, k) = any-Holds P p h xs (rw other at e) in
      (x ∷ before, y, after, ap (λ l. x ∷ l) at, k)
]

any-here {ℓ} :
    {A : Type ℓ} (p : A → Bool) (before after : List A) (x : A)
    → p x ≡ true
    → any p (before ++ x ∷ after) ≡ true
any-here p [] after x h = rw h refl
any-here p (y ∷ before) after x h = elim (Bool-cases (p y)) [
  | inl holds ↦ rw holds refl
  | inr other ↦ rw other (any-here p before after x h)
]

pub any-Holds_iff {ℓ κ} :
    {A : Type ℓ} (P : A → Type κ) (p : A → Bool)
    → ((x : A) → p x ≡ true → P x)
    → ((x : A) → P x → p x ≡ true)
    → (xs : List A) → (any p xs ≡ true) ↔ Holds P xs
any-Holds_iff P p h k xs = (
  any-Holds P p h xs,
  λ (before, x, after, e, holds). rw e (any-here p before after x (k x holds)),
)
