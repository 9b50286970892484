-- ===== src/Base/Decimal.antt =====
-- A number as decimal text, as `String(n)` gives it, and `parseInt`.
use Prim.Native.Nat.{ℕ, zero, suc, ◌<◌, ◌+◌, ◌-◌, ◌*◌, ◌/◌, ◌%◌}
use mathlib.Core.Path.{◌≡◌, refl, ap, ◌∙◌}
use mathlib.Core.Logic.{inl, inr}
use native.Mathlib.Omega.{arith}
use mathlib.Core.Bool.{Bool, true, false, not, ◌&&◌, ◌||◌}
use mathlib.Core.Option.{Option, none, some}
use mathlib.Core.List.{[], ◌∷◌, ◌++◌}
use inroa.Base.Tests.{◌==◌, ltb, leb, if◌then◌else◌, Bool-cases}
use inroa.Base.Lists.{All, All-append}
use inroa.Base.Chars.{Text, codes, is_digit}

-- The last digits of `n`, with fuel.
decimal_fuel : ℕ → ℕ → Text
decimal_fuel zero n = []
decimal_fuel (suc f) n =
    let more : Text = decimal_fuel f (n / 10) ++ (n % 10 + b'0') ∷ [] in
    if ltb n 10 then (n + b'0') ∷ [] else more

digits : (f n : ℕ) → All (λ c. is_digit c ≡ true) (decimal_fuel f n)
unfolding decimal_fuel
digits zero n = tt
digits (suc f) n = elim (Bool-cases (ltb n 10)) [
  | inl small ↦ rw small (ground arith, tt)
  | inr large ↦ rw large (
      (All-append (λ c. is_digit c ≡ true) (decimal_fuel f (n / 10)) _).1
        (digits f (n / 10), (ground arith, tt)))
]

unfoldable pub decimal : ℕ → Text
unfolding decimal_fuel
decimal n = decimal_fuel (suc n) n

-- Any fuel above the number gives the same digits.
decimal_fuel-enough : (f g n : ℕ) → n < f → n < g → decimal_fuel f n ≡ decimal_fuel g n
unfolding decimal_fuel
decimal_fuel-enough zero g n h k = absurd (omega arith)
decimal_fuel-enough (suc f) zero n h k = absurd (omega arith)
decimal_fuel-enough (suc f) (suc g) n h k = elim (Bool-cases (ltb n 10)) [
  | inl small ↦ rw small refl
  | inr large ↦ rw large (
      ap (λ (s : Text). s ++ (n % 10 + b'0') ∷ [])
        (decimal_fuel-enough f g (n / 10) (ground arith) (ground arith)))
]

-- A digit behind the digits of a positive number.
pub decimal_digit : (n d : ℕ) → 0 < n → d < 10 → decimal (n * 10 + d) ≡ decimal n ++ (d + b'0') ∷ []
unfolding decimal decimal_fuel
decimal_digit n d h k =
    let large : ltb (n * 10 + d) 10 ≡ false = ground arith in
    let last : (n * 10 + d) % 10 ≡ d = omega arith in
    let front : (n * 10 + d) / 10 ≡ n = omega arith in
    rw (large, last, front)
      (ap (λ (s : Text). s ++ (d + b'0') ∷ [])
        (decimal_fuel-enough (n * 10 + d) (suc n) n (omega arith) (omega arith)))

-- The digits are digits.
pub decimal-All_digit : (n : ℕ) → All (λ c. is_digit c ≡ true) (decimal n)
unfolding decimal
decimal-All_digit n = digits (suc n) n

-- The number that a text of digits stands for, behind the digits of `acc`.
abbrev pub digits_value : ℕ → Text → ℕ
digits_value acc [] = acc
digits_value acc (c ∷ s) = digits_value (acc * 10 + (c - b'0')) s

digits_value-append :
    (acc : ℕ) (s t : Text) → digits_value acc (s ++ t) ≡ digits_value (digits_value acc s) t
digits_value-append acc [] t = refl
digits_value-append acc (c ∷ s) t = digits_value-append (acc * 10 + (c - b'0')) s t

digits_value-decimal_fuel : (f n : ℕ) → n < f → digits_value 0 (decimal_fuel f n) ≡ n
unfolding decimal_fuel
digits_value-decimal_fuel zero n h = absurd (omega arith)
digits_value-decimal_fuel (suc f) n h = elim (Bool-cases (ltb n 10)) [
  | inl small ↦ rw small (omega arith)
  | inr large ↦ rw large (
      digits_value-append 0 (decimal_fuel f (n / 10)) _
      ∙ ground (arith, digits_value-decimal_fuel f (n / 10)))
]

pub digits_value-decimal : (n : ℕ) → digits_value 0 (decimal n) ≡ n
unfolding decimal
digits_value-decimal n = digits_value-decimal_fuel (suc n) n (omega arith)

-- White space as `\s`, `trim` and `parseInt` know it.
abbrev pub is_space : ℕ → Bool
is_space c =
    (leb 9 c && leb c 13)
    || (c == 32)
    || (c == 0xa0)
    || (c == 0x1680)
    || (leb 0x2000 c && leb c 0x200a)
    || (leb 0x2028 c && leb c 0x2029)
    || (c == 0x202f)
    || (c == 0x205f)
    || (c == 0x3000)
    || (c == 0xfeff)

unfoldable pub trim_start : Text → Text
trim_start [] = []
trim_start (c ∷ s) = elim (is_space c) [ true ↦ trim_start s | false ↦ c ∷ s ]

-- The value of a digit in a base up to 16.
abbrev pub hex_value : ℕ → Option ℕ
hex_value c =
    if is_digit c
    then some (c - b'0')
    else if leb b'a' c && leb c b'f'
    then some (c - b'a' + 10)
    else if leb b'A' c && leb c b'F'
    then some (c - b'A' + 10)
    else none

abbrev pub digit_in : ℕ → ℕ → Option ℕ
digit_in radix c = elim (hex_value c) [
  | none ↦ none
  | some d ↦ if ltb d radix then some d else none
]

-- The longest run of digits at the front; `none` if there is no digit.
unfoldable pub parse_digits : ℕ → Option ℕ → Text → Option ℕ
parse_digits radix acc [] = acc
parse_digits radix acc (c ∷ s) = elim (digit_in radix c) [
  | none ↦ acc
  | some d ↦ parse_digits radix (some (elim acc [ none ↦ d | some n ↦ n * radix + d ])) s
]

abbrev pub parse_radix : Text → Option ℕ
parse_radix (z ∷ x ∷ s) =
    if (z == b'0') && ((x == b'x') || (x == b'X'))
    then parse_digits 16 none s
    else parse_digits 10 none (z ∷ x ∷ s)
parse_radix s = parse_digits 10 none s

-- `parseInt(s)`: a sign (true for minus) and a magnitude; `none` is `NaN`.
abbrev pub parse_signed : Text → Option (Bool × ℕ)
parse_signed [] = none
parse_signed (c ∷ s) =
    if c == b'-'
    then elim (parse_radix s) [ none ↦ none | some n ↦ some (true, n) ]
    else if c == b'+'
    then elim (parse_radix s) [ none ↦ none | some n ↦ some (false, n) ]
    else elim (parse_radix (c ∷ s)) [ none ↦ none | some n ↦ some (false, n) ]

unfoldable pub parse_int : Text → Option (Bool × ℕ)
unfolding trim_start parse_digits
parse_int s = parse_signed (trim_start s)

-- `n > 0`
abbrev pub is_positive : Bool × ℕ → Bool
is_positive (minus, n) = not minus && ltb 0 n

parse_runs :
    (parse_int (codes " -12px") ≡ some (true, 12))
    × (parse_int (codes "0x1F") ≡ some (false, 31))
    × (parse_int (codes "<b>") ≡ none)
    × (decimal 403 ≡ codes "403")
unfolding parse_int decimal
parse_runs = (refl, refl, refl, refl)
