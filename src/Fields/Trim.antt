-- ===== src/Fields/Trim.antt =====
-- What `trim` takes away.
use Prim.Native.Nat.{ℕ}
use mathlib.Core.Path.{◌≡◌, refl, ap, ◌∙◌}
use mathlib.Core.Logic.{◌⊎◌, inl, inr}
use mathlib.Core.Bool.{true, false}
use mathlib.Core.List.{[], ◌∷◌, ◌++◌}
use inroa.Base.{Text, Bool-cases, is_space, trim_start, All}
use inroa.Fields.{drop_space, trim_end, trim}

abbrev pub AllSpace : Text → Type 0
AllSpace s = All (λ c. is_space c ≡ true) s

-- The first character, if there is one, is no white space; and the last one.
abbrev IsFrontTrimmed : Text → Type 0
IsFrontTrimmed s = (s ≡ []) ⊎ ((c : ℕ) × (t : Text) × (s ≡ c ∷ t) × (is_space c ≡ false))

abbrev IsBackTrimmed : Text → Type 0
IsBackTrimmed s = (s ≡ []) ⊎ ((t : Text) × (c : ℕ) × (s ≡ t ++ c ∷ []) × (is_space c ≡ false))

abbrev pub IsTrimmed : Text → Type 0
IsTrimmed s = IsFrontTrimmed s × IsBackTrimmed s

trim_start-cut :
    (s : Text) → (a : Text) × (s ≡ a ++ trim_start s) × AllSpace a × IsFrontTrimmed (trim_start s)
unfolding trim_start
trim_start-cut [] = ([], refl, tt, inl refl)
trim_start-cut (c ∷ s) = elim (Bool-cases (is_space c)) [
  | inl space ↦
      let (a, e, h, front) = trim_start-cut s in
      rw (trim_start, space) (c ∷ a, ap (λ (t : Text). c ∷ t) e, (space, h), front)
  | inr other ↦ rw (trim_start, other) ([], refl, tt, inr (c, s, refl, other))
]

trim_end-cut :
    (s : Text) → (b : Text) × (s ≡ trim_end s ++ b) × AllSpace b × IsBackTrimmed (trim_end s)
unfolding trim_end
trim_end-cut [] = ([], refl, tt, inl refl)
trim_end-cut (c ∷ s) = let (b, e, h, back) = trim_end-cut s in with_rest (trim_end s) b e h back
  where
    with_rest :
        (t b : Text)
        → s ≡ t ++ b
        → AllSpace b
        → IsBackTrimmed t
        → (b' : Text) × (c ∷ s ≡ drop_space c t ++ b')
          × AllSpace b'
          × IsBackTrimmed (drop_space c t)
    with_rest [] b e h back = elim (Bool-cases (is_space c)) [
      | inl space ↦ rw space (c ∷ b, ap (λ (t : Text). c ∷ t) e, (space, h), inl refl)
      | inr other ↦ rw other (b, ap (λ (t : Text). c ∷ t) e, h, inr ([], c, refl, other))
    ]
    with_rest (d ∷ t) b e h (inl none_left) = cc
    with_rest (d ∷ t) b e h (inr (u, l, ends, other)) =
        (b, ap (λ (t : Text). c ∷ t) e, h, inr (c ∷ u, l, ap (λ (t : Text). c ∷ t) ends, other))

-- Trimming the end does not change what stands at the front.
trim_end-front : (s : Text) → IsFrontTrimmed s → IsFrontTrimmed (trim_end s)
unfolding trim_end
trim_end-front [] h = inl refl
trim_end-front (c ∷ s) (inl nothing) = cc
trim_end-front (c ∷ s) (inr (d, t, e, other)) =
    let same : c ≡ d = cc in with_rest (trim_end s) (rw same other)
  where
    with_rest : (t : Text) → is_space c ≡ false → IsFrontTrimmed (drop_space c t)
    with_rest [] h = rw h (inr (c, [], refl, h))
    with_rest (d ∷ t) h = inr (c, d ∷ t, refl, h)

-- Every text is white space, the trimmed text, and white space; the trimmed text is empty, or its
-- first and its last character are no white space.
pub trim-IsTrimmed :
    (str : Text)
    → (a : Text) × (b : Text) × (str ≡ a ++ (trim str ++ b))
      × AllSpace a
      × AllSpace b
      × IsTrimmed (trim str)
unfolding trim
trim-IsTrimmed str =
    let (a, e, ha, front) = trim_start-cut str in
    let (b, e', hb, back) = trim_end-cut (trim_start str) in
    (a, b, e ∙ ap (λ (t : Text). a ++ t) e', ha, hb, (trim_end-front (trim_start str) front, back))
