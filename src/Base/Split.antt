-- ===== src/Base/Split.antt =====
-- `split`, `join` and `replace` of one character, as `String.prototype` and `Array.prototype` have
-- them.
use Prim.Native.Nat.{ℕ}
use mathlib.Core.Path.{◌≡◌, refl, ap, ap₂, ◌∙◌}
use mathlib.Core.Logic.{◌≢◌}
use mathlib.Core.Bool.{true, false}
use mathlib.Core.List.{List, [], ◌∷◌, ◌++◌, append_assoc}
use native.Mathlib.Omega.{arith}
use inroa.Base.Tests.{◌==◌}
use inroa.Base.Lists.{All}
use inroa.Base.Chars.{Text}

-- A character in front of the first part.
abbrev pub cons_first : ℕ → List Text → List Text
cons_first c [] = (c ∷ []) ∷ []
cons_first c (p ∷ ps) = (c ∷ p) ∷ ps

-- `s.split(sep)`: a text with n separators has n + 1 parts.
unfoldable pub split : ℕ → Text → List Text
split sep [] = [] ∷ []
split sep (c ∷ s) = elim (c == sep) [ true ↦ [] ∷ split sep s | false ↦ cons_first c (split sep s) ]

-- `parts.join(sep)`
unfoldable pub join : Text → List Text → Text
join sep [] = []
join sep (p ∷ []) = p
join sep (p ∷ q ∷ ps) = p ++ (sep ++ join sep (q ∷ ps))

-- `s.replace(/c/g, t)`
unfoldable pub replace_all : ℕ → Text → Text → Text
replace_all c t [] = []
replace_all c t (x ∷ s) = elim (x == c) [
  | true ↦ t ++ replace_all c t s
  | false ↦ x ∷ replace_all c t s
]

abbrev pub IsFree : ℕ → Text → Type 0
IsFree c s = All (λ x. x ≢ c) s

split-free : (sep : ℕ) (p : Text) → IsFree sep p → split sep p ≡ p ∷ []
unfolding split
split-free sep [] h = refl
split-free sep (c ∷ p) (h, hs) = ground (arith, split-free sep p hs)

split-append : (sep : ℕ) (p s : Text) → IsFree sep p → split sep (p ++ sep ∷ s) ≡ p ∷ split sep s
unfolding split
split-append sep [] s h = ground arith
split-append sep (c ∷ p) s (h, hs) = ground (arith, split-append sep p s hs)

-- Splitting undoes joining, where no part holds the separator.
pub split-join :
    (sep : ℕ) (p : Text) (ps : List Text)
    → All (IsFree sep) (p ∷ ps)
    → split sep (join (sep ∷ []) (p ∷ ps)) ≡ p ∷ ps
unfolding join
split-join sep p [] (h, _) = split-free sep p h
split-join sep p (q ∷ ps) (h, hs) =
    split-append sep p (join (sep ∷ []) (q ∷ ps)) h
    ∙ ap (λ (l : List Text). p ∷ l) (split-join sep q ps hs)

replace_all-append :
    (c : ℕ) (t s u : Text) → replace_all c t (s ++ u) ≡ replace_all c t s ++ replace_all c t u
unfolding replace_all
replace_all-append c t [] u = refl
replace_all-append c t (x ∷ s) u =
    ground
      (arith, replace_all-append c t s u, append_assoc t (replace_all c t s) (replace_all c t u))

replace_all-free : (c : ℕ) (t s : Text) → IsFree c s → replace_all c t s ≡ s
unfolding replace_all
replace_all-free c t [] h = refl
replace_all-free c t (x ∷ s) (h, hs) = ground (arith, replace_all-free c t s hs)

replace_all_self : (c : ℕ) (t s : Text) → replace_all c t (c ∷ s) ≡ t ++ replace_all c t s
unfolding replace_all
replace_all_self c t s = ground arith

-- Replacing the separator of a joined text by another.
pub replace_all-join :
    (c : ℕ) (t p : Text) (ps : List Text)
    → All (IsFree c) (p ∷ ps)
    → replace_all c t (join (c ∷ []) (p ∷ ps)) ≡ join t (p ∷ ps)
unfolding join
replace_all-join c t p [] (h, _) = replace_all-free c t p h
replace_all-join c t p (q ∷ ps) (h, hs) =
    replace_all-append c t p (c ∷ join (c ∷ []) (q ∷ ps))
    ∙ ap₂ ◌++◌ (replace_all-free c t p h)
        (replace_all_self c t _ ∙ ap (λ (l : Text). t ++ l) (replace_all-join c t q ps hs))
