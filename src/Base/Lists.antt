-- ===== src/Base/Lists.antt =====
-- Lists measured by native numbers, and predicates on all elements.
use Prim.Native.Nat.{ℕ, zero, suc, ◌+◌}
use mathlib.Core.Path.{◌≡◌, refl}
use mathlib.Core.Logic.{◌↔◌}
use mathlib.Core.Bool.{Bool, true, false, ◌&&◌, ◌||◌}
use mathlib.Core.Option.{Option, none, some}
use mathlib.Core.List.{List, [], ◌∷◌, ◌++◌, map}
use native.Mathlib.Omega.{arith}

module _ {ℓ} {A : Type ℓ} where
  abbrev pub length : List A → ℕ
  length [] = 0
  length (x ∷ xs) = suc (length xs)

  abbrev pub get_elem? : List A → ℕ → Option A
  get_elem? [] i = none
  get_elem? (x ∷ xs) zero = some x
  get_elem? (x ∷ xs) (suc i) = get_elem? xs i

  abbrev pub all : (A → Bool) → List A → Bool
  all p [] = true
  all p (x ∷ xs) = p x && all p xs

  abbrev pub any : (A → Bool) → List A → Bool
  any p [] = false
  any p (x ∷ xs) = p x || any p xs

  abbrev pub keep : (A → Bool) → List A → List A
  keep p [] = []
  keep p (x ∷ xs) = elim (p x) [ true ↦ x ∷ keep p xs | false ↦ keep p xs ]

  pub length-append : (xs ys : List A) → length (xs ++ ys) ≡ length xs + length ys
  length-append [] ys = omega arith
  length-append (x ∷ xs) ys = omega (arith, length-append xs ys)

  -- The library's equation, kept where a list is taken apart.
  pub append-eq-nil : (xs ys : List A) → xs ++ ys ≡ [] → (xs ≡ []) × (ys ≡ [])
  append-eq-nil [] ys h = (refl, h)
  append-eq-nil (x ∷ xs) ys h = cc

module _ {ℓ κ} {A : Type ℓ} (P : A → Type κ) where
  abbrev pub All : List A → Type κ
  All [] = Unit
  All (x ∷ xs) = P x × All xs

  pub All-append : (xs ys : List A) → All (xs ++ ys) ↔ (All xs × All ys)
  All-append [] ys = (λ h. (tt, h), λ h. h.1)
  All-append (x ∷ xs) ys = (
    λ h. let r = (All-append xs ys).0 h.1 in ((h.0, r.0), r.1),
    λ h. (h.0.0, (All-append xs ys).1 (h.0.1, h.1)),
  )

  pub All-every : ((x : A) → P x) → (xs : List A) → All xs
  All-every h [] = tt
  All-every h (x ∷ xs) = (h x, All-every h xs)

pub All-mono {ℓ κ κ'} :
    {A : Type ℓ} (P : A → Type κ) (Q : A → Type κ') (xs : List A)
    → ((x : A) → P x → Q x)
    → All P xs
    → All Q xs
All-mono P Q [] h e = tt
All-mono P Q (x ∷ xs) h (e, es) = (h x e, All-mono P Q xs h es)

pub keep-append {ℓ} :
    {A : Type ℓ} (p : A → Bool) (xs ys : List A) → keep p (xs ++ ys) ≡ keep p xs ++ keep p ys
keep-append p [] ys = refl
keep-append p (x ∷ xs) ys = ground (arith, keep-append p xs ys)

-- The last two items, by their index.
pub get_elem?-second {ℓ} :
    {A : Type ℓ} (xs : List A) (y z : A) → get_elem? ((xs ++ y ∷ []) ++ z ∷ []) (length xs) ≡ some y
get_elem?-second [] y z = refl
get_elem?-second (x ∷ xs) y z = get_elem?-second xs y z

pub get_elem?-third {ℓ} :
    {A : Type ℓ} (xs : List A) (y z : A)
    → get_elem? ((xs ++ y ∷ []) ++ z ∷ []) (suc (length xs)) ≡ some z
get_elem?-third [] y z = refl
get_elem?-third (x ∷ xs) y z = get_elem?-third xs y z

pub map-map_eq {ℓ ℓ' ℓ''} :
    {A : Type ℓ} {B : Type ℓ'} {C : Type ℓ''} (f : B → C) (g : A → B) (h : A → C) (xs : List A)
    → ((x : A) → f (g x) ≡ h x)
    → map f (map g xs) ≡ map h xs
map-map_eq f g h [] e = refl
map-map_eq f g h (x ∷ xs) e = rw (e x, map-map_eq f g h xs e) refl

pub map_ext {ℓ ℓ'} :
    {A : Type ℓ} {B : Type ℓ'} (f g : A → B) (xs : List A)
    → All (λ x. f x ≡ g x) xs
    → map f xs ≡ map g xs
map_ext f g [] e = refl
map_ext f g (x ∷ xs) (e, es) = rw (e, map_ext f g xs es) refl

pub map_fixed {ℓ} : {A : Type ℓ} (f : A → A) (xs : List A) → All (λ x. f x ≡ x) xs → map f xs ≡ xs
map_fixed f [] e = refl
map_fixed f (x ∷ xs) (e, es) = rw (e, map_fixed f xs es) refl

pub get_elem?-append-length :
    {A : Type 0} (xs ys : List A) (y : A) → get_elem? (xs ++ y ∷ ys) (length xs) ≡ some y
get_elem?-append-length [] ys y = refl
get_elem?-append-length (x ∷ xs) ys y = get_elem?-append-length xs ys y
