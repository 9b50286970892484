-- ===== src/Validate/Numeral.antt =====
-- Numerals: the value of a text of decimal digits, and the parts of the expressions that stand for
-- a bounded numeral.
use Prim.Native.Nat.{ℕ, ◌+◌, ◌*◌, ◌≤◌}
use mathlib.Core.Path.{◌≡◌, refl, ap}
use mathlib.Core.Logic.{◌↔◌, ◌⊎◌, inl, inr}
use mathlib.Core.Bool.{Bool, true}
use mathlib.Core.List.{[], ◌∷◌}
use native.Mathlib.Omega.{arith}
use inroa.Base.{Text, is_digit, digit_value, length, leb, ◌==◌, Bool-cases}
use inroa.Regex.{Matches, seq, set, alt, char, repeat}
use inroa.Regex.Shape.{InClass, Matches-repeat_iff}
use inroa.Validate.Dates.{day, month, year}

abbrev pub value_from : ℕ → Text → ℕ
value_from acc [] = acc
value_from acc (c ∷ s) = value_from (acc * 10 + digit_value c) s

abbrev pub value : Text → ℕ
value s = value_from 0 s

-- `n` decimal digits with a value from `lo` to `hi`.
pub record IsNumeral (n lo hi : ℕ) (s : Text) : Type 0 where
  pub count : length s ≡ n
  pub digits : InClass is_digit s
  pub above : lo ≤ value s
  pub below : value s ≤ hi

-- A text of two, three, four characters.
pub two_of_length : (s : Text) → length s ≡ 2 → (c : ℕ) × (d : ℕ) × (s ≡ c ∷ d ∷ [])
two_of_length [] e = absurd (omega arith)
two_of_length (c ∷ []) e = absurd (omega arith)
two_of_length (c ∷ d ∷ []) e = (c, d, refl)
two_of_length (c ∷ d ∷ x ∷ s) e = absurd (omega arith)

pub three_of_length : (s : Text) → length s ≡ 3 → (b : ℕ) × (c : ℕ) × (d : ℕ) × (s ≡ b ∷ c ∷ d ∷ [])
three_of_length [] e = absurd (omega arith)
three_of_length (b ∷ s) e =
    let (c, d, f) = two_of_length s (omega arith) in (b, c, d, ap (λ t. b ∷ t) f)

-- Two classes in a row.
pub pair_intro :
    (p q : ℕ → Bool) {c d : ℕ}
    → p c ≡ true
    → q d ≡ true
    → Matches (seq (set p) (set q)) (c ∷ d ∷ [])
pair_intro p q {c} {d} h k = (c ∷ [], d ∷ [], refl, (c, refl, h), (d, refl, k))

day_from : (c d : ℕ) → IsNumeral 2 0 31 (c ∷ d ∷ []) → Matches day (c ∷ d ∷ [])
unfolding day
day_from c d n = elim (Bool-cases (leb c b'2')) [
  | inl h ↦ inl (pair_intro _ _ (ground arith) (ground arith))
  | inr h ↦ inr (pair_intro _ _ (ground arith) (ground arith))
]

day_to : (s : Text) → Matches day s → IsNumeral 2 0 31 s
unfolding day
day_to s (inl (u, v, e, (c, eu, h), (d, ev, k))) = rw (e, eu, ev) (ground arith)
day_to s (inr (u, v, e, (c, eu, h), (d, ev, k))) = rw (e, eu, ev) (ground arith)

pub day_iff : (s : Text) → Matches day s ↔ IsNumeral 2 0 31 s
day_iff s =
    (day_to s, λ n. let (c, d, e) = two_of_length s n.count in rw e (day_from c d (rw e at n)))

month_from : (c d : ℕ) → IsNumeral 2 0 12 (c ∷ d ∷ []) → Matches month (c ∷ d ∷ [])
unfolding month
month_from c d n = elim (Bool-cases (c == b'0')) [
  | inl h ↦ inl (pair_intro _ _ (ground arith) (ground arith))
  | inr h ↦ inr (pair_intro _ _ (ground arith) (ground arith))
]

month_to : (s : Text) → Matches month s → IsNumeral 2 0 12 s
unfolding month
month_to s (inl (u, v, e, (c, eu, h), (d, ev, k))) = rw (e, eu, ev) (ground arith)
month_to s (inr (u, v, e, (c, eu, h), (d, ev, k))) = rw (e, eu, ev) (ground arith)

pub month_iff : (s : Text) → Matches month s ↔ IsNumeral 2 0 12 s
month_iff s =
    (month_to s, λ n. let (c, d, e) = two_of_length s n.count in rw e (month_from c d (rw e at n)))

year_from :
    (a b c d : ℕ) → IsNumeral 4 1900 2099 (a ∷ b ∷ c ∷ d ∷ []) → Matches year (a ∷ b ∷ c ∷ d ∷ [])
unfolding year repeat
year_from a b c d n = (
  a ∷ b ∷ [],
  c ∷ d ∷ [],
  refl,
  century,
  (
    c ∷ [],
    d ∷ [],
    refl,
    (c, refl, ground arith),
    (d ∷ [], [], refl, (d, refl, ground arith), refl),
  ),
)
  where
    century : Matches (alt (seq (char b'2') (char b'0')) (seq (char b'1') (char b'9'))) (a ∷ b ∷ [])
    century = elim (Bool-cases (a == b'2')) [
      | inl h ↦ inl (pair_intro _ _ (ground arith) (ground arith))
      | inr h ↦ inr (pair_intro _ _ (ground arith) (ground arith))
    ]

year_of_parts :
    (a b : ℕ) (v : Text)
    → ((a ≡ b'2') × (b ≡ b'0')) ⊎ ((a ≡ b'1') × (b ≡ b'9'))
    → length v ≡ 2
    → InClass is_digit v
    → IsNumeral 4 1900 2099 (a ∷ b ∷ v)
year_of_parts a b [] h l k = absurd (omega arith)
year_of_parts a b (c ∷ []) h l k = absurd (omega arith)
year_of_parts a b (c ∷ d ∷ []) h l k = ground arith
year_of_parts a b (c ∷ d ∷ x ∷ v) h l k = absurd (omega arith)

year_to : (s : Text) → Matches year s → IsNumeral 4 1900 2099 s
unfolding year
year_to s (u, v, e, inl (x, y, eu, (a, ex, h), (b, ey, h')), k) =
    let (l, hs) = (Matches-repeat_iff 2 _ v).0 k in
    rw (e, eu, ex, ey) (year_of_parts a b v (inl (ground arith, ground arith)) l hs)
year_to s (u, v, e, inr (x, y, eu, (a, ex, h), (b, ey, h')), k) =
    let (l, hs) = (Matches-repeat_iff 2 _ v).0 k in
    rw (e, eu, ex, ey) (year_of_parts a b v (inr (ground arith, ground arith)) l hs)

pub year_iff : (s : Text) → Matches year s ↔ IsNumeral 4 1900 2099 s
year_iff s = (year_to s, from s)
  where
    from : (t : Text) → IsNumeral 4 1900 2099 t → Matches year t
    from [] n = absurd (omega arith)
    from (a ∷ []) n = absurd (omega arith)
    from (a ∷ b ∷ t) n =
        let (c, d, e) = two_of_length t (omega arith) in rw e (year_from a b c d (rw e at n))

-- An octet has one or two digits, or three with a value from 100 to 255: `007` is none.
pub record IsOctet (s : Text) : Type 0 where
  pub digits : InClass is_digit s
  pub size : (length s ≡ 1) ⊎ (length s ≡ 2) ⊎ ((length s ≡ 3) × (100 ≤ value s))
  pub below : value s ≤ 255
