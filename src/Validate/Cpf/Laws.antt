-- ===== src/Validate/Cpf/Laws.antt =====
-- `isCPF` against the official rule for the check digits.
use Prim.Native.Nat.{ℕ, ◌+◌, ◌-◌, ◌*◌, ◌%◌, ◌<◌}
use mathlib.Core.Path.{◌≡◌, refl, ap, ap₂}
use mathlib.Core.Logic.{◌↔◌, ◌≢◌}
use mathlib.Core.Bool.{true, false}
use mathlib.Core.Option.{some}
use mathlib.Core.List.{[], ◌∷◌, ◌++◌}
use native.Mathlib.Omega.{arith}
use inroa.Base.{Text, ◌==◌, ==_iff, iff_trans, if◌then◌else◌, is_digit, digit_value, length}
use inroa.Regex.Shape.{InClass}
use inroa.Validate.Engine.{Engine, ok, ok_iff}
use inroa.Validate.Cpf.{char_at, strip_marks, sums, is_cpf}

-- The digits weighted by `w`, `w - 1`, …
unfoldable pub weighted : ℕ → Text → ℕ
weighted w [] = 0
weighted w (c ∷ s) = digit_value c * w + weighted (w - 1) s

-- A check digit from a weighted sum: ten times the sum modulo 11, where 10 counts as 0.
abbrev pub check_digit : ℕ → ℕ
check_digit sum = if sum * 10 % 11 == 10 then 0 else sum * 10 % 11

abbrev pub first_check : Text → ℕ
first_check base = check_digit (weighted 10 base)

-- The sum behind the second check digit: the nine digits and the first check digit.
abbrev pub second_sum : Text → ℕ
second_sum base = weighted 11 base + 2 * first_check base

-- A valid number: nine digits and their two check digits.
abbrev pub HasCheckDigits : Text → ℕ → ℕ → Type 0
HasCheckDigits base x y =
    (digit_value x ≡ first_check base) × (digit_value y ≡ check_digit (second_sum base))

sums-digits :
    (a b c d e f g h i x y : ℕ)
    → InClass is_digit (a ∷ b ∷ c ∷ d ∷ e ∷ f ∷ g ∷ h ∷ i ∷ [])
    → sums 9 (a ∷ b ∷ c ∷ d ∷ e ∷ f ∷ g ∷ h ∷ i ∷ x ∷ y ∷ []) 0 11 (some 0) (some 0) ≡ (
      some (weighted 10 (a ∷ b ∷ c ∷ d ∷ e ∷ f ∷ g ∷ h ∷ i ∷ [])),
      some (weighted 11 (a ∷ b ∷ c ∷ d ∷ e ∷ f ∷ g ∷ h ∷ i ∷ [])),
    )
unfolding sums weighted
sums-digits a b c d e f g h i x y (ha, (hb, (hc, (hd, (he, (hf, (hg, (hh, (hi, _))))))))) =
    rw (ha, hb, hc, hd, he, hf, hg, hh, hi)
      (ap₂ (λ (m n : ℕ). (some m, some n)) (omega arith) (omega arith))

sums-base :
    (base : Text) (x y : ℕ)
    → length base ≡ 9
    → InClass is_digit base
    → sums 9 (base ++ x ∷ y ∷ []) 0 11 (some 0) (some 0)
      ≡ (some (weighted 10 base), some (weighted 11 base))
sums-base (a ∷ b ∷ c ∷ d ∷ e ∷ f ∷ g ∷ h ∷ i ∷ []) x y l digits =
    sums-digits a b c d e f g h i x y digits
sums-base base x y l digits = absurd (omega arith)

char_at-base :
    (base : Text) (x y : ℕ)
    → length base ≡ 9
    → char_at (base ++ x ∷ y ∷ []) 9 ++ char_at (base ++ x ∷ y ∷ []) 10 ≡ x ∷ y ∷ []
char_at-base (a ∷ b ∷ c ∷ d ∷ e ∷ f ∷ g ∷ h ∷ i ∷ []) x y l = refl
char_at-base base x y l = absurd (omega arith)

-- Arithmetic of the comparison: `f` and `r` generated, `x` and `y` typed.
two_digits_iff :
    (f r x y : ℕ)
    → r < 11
    → r ≢ 10
    → x < 10
    → y < 10
    → (f * 10 + r ≡ x * 10 + y) ↔ ((x ≡ f) × (y ≡ (if r == 10 then 0 else r)))
two_digits_iff f r x y hr ne hx hy = (λ e. (omega arith, ground arith), λ h. ground arith)

two_digits_of_ten :
    (f r x y : ℕ) → r ≡ 10 → x < 10 → y < 10 → (f * 10 + r ≡ x * 10 + y) ↔ ((x ≡ f + 1) × (y ≡ 0))
two_digits_of_ten f r x y e hx hy = (λ k. (omega arith, omega arith), λ h. omega arith)

-- The number that the script generates, and compares with the two digits typed.
abbrev generated : Text → ℕ
generated base = first_check base * 10 + second_sum base * 10 % 11

module _ (engine : Engine) (string base : Text) (x y : ℕ)
    (stripped : strip_marks string ≡ base ++ x ∷ y ∷ []) (nine : length base ≡ 9)
    (digits : InClass is_digit base) (digit_x : is_digit x ≡ true)
    (digit_y : is_digit y ≡ true) where
  is_cpf_value : is_cpf engine string ≡ ok (generated base == digit_value x * 10 + digit_value y)
  unfolding is_cpf
  is_cpf_value = rw (
    stripped,
    sums-base base x y nine digits,
    char_at-base base x y nine,
    engine.eval_digits x y digit_x digit_y,
  )

  is_cpf-generated_iff :
      (is_cpf engine string ≡ ok true) ↔ (generated base ≡ digit_value x * 10 + digit_value y)
  is_cpf-generated_iff = rw is_cpf_value (ok_iff (==_iff _ _))

  -- Unless the second sum leaves the remainder 10, `isCPF` accepts a number of eleven digits, with
  -- or without its marks, exactly if both check digits are right.
  pub is_cpf_iff :
      (second_sum base * 10 % 11) ≢ 10 → (is_cpf engine string ≡ ok true) ↔ HasCheckDigits base x y
  is_cpf_iff ne = iff_trans is_cpf-generated_iff (
      two_digits_iff (first_check base) (second_sum base * 10 % 11) (digit_value x) (digit_value y)
        (ground arith) ne (ground arith) (ground arith))

  -- If it leaves the remainder 10, `isCPF` rejects the number with the right check digits, and
  -- accepts the one whose first digit is too large by one and whose second digit is 0.
  pub is_cpf_of_ten :
      (second_sum base * 10 % 11) ≡ 10
      → (HasCheckDigits base x y → is_cpf engine string ≡ ok false)
        × ((is_cpf engine string ≡ ok true)
            ↔ ((digit_value x ≡ first_check base + 1) × (digit_value y ≡ 0)))
  is_cpf_of_ten e = (
    λ h. rw is_cpf_value (ap ok (ground (arith, h.0, h.1))),
    iff_trans is_cpf-generated_iff (
        two_digits_of_ten (first_check base) (second_sum base * 10 % 11) (digit_value x)
          (digit_value y) e (ground arith) (ground arith)),
  )
