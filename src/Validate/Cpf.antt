-- ===== src/Validate/Cpf.antt =====
-- scripts/validatejs.js, `isCPF`: the two check digits of a Brazilian taxpayer number. A number of
-- the script is `some`, and `NaN` is `none`.
pub mod Laws
pub mod Bounds
use Prim.Native.Nat.{ℕ, zero, suc, ◌+◌, ◌-◌, ◌*◌, ◌%◌}
use mathlib.Core.Bool.{Bool, true, false, not, ◌||◌}
use mathlib.Core.Option.{Option, none, some}
use mathlib.Core.List.{[], ◌∷◌, ◌++◌}
use inroa.Base.{is_space, Text, ◌==◌, if◌then◌else◌, is_digit, digit_value, get_elem?, keep}
use inroa.Validate.Engine.{Engine, Result, ok, throws, eval_error}

-- `cpf.toString().replace(/\.|\-/g, "")`
unfoldable pub strip_marks : Text → Text
strip_marks string = keep (λ c. not ((c == b'.') || (c == b'-'))) string

-- `cpf.charAt(i)`, empty past the end.
abbrev pub char_at : Text → ℕ → Text
char_at s i = elim (get_elem? s i) [ none ↦ [] | some c ↦ c ∷ [] ]

-- A text of at most one character as a factor: nothing and white space are 0.
abbrev pub to_factor : Text → Option ℕ
to_factor [] = some 0
to_factor (c ∷ s) = if is_digit c then some (digit_value c) else if is_space c then some 0 else none

-- `soma += eval(cpf.charAt(i) * w)`: `eval` of a number is the number.
abbrev pub add_product : Option ℕ → Option ℕ → ℕ → Option ℕ
add_product (some soma) (some factor) w = some (soma + factor * w)
add_product _ _ w = none

-- The loop: the rounds left, `i`, `vlr` and the two sums.
pub sums : ℕ → Text → ℕ → ℕ → Option ℕ → Option ℕ → Option ℕ × Option ℕ
sums zero cpf i vlr soma1 soma2 = (soma1, soma2)
sums (suc n) cpf i vlr soma1 soma2 =
    sums n cpf (i + 1) (vlr - 1) (add_product soma1 (to_factor (char_at cpf i)) (vlr - 1))
      (add_product soma2 (to_factor (char_at cpf i)) vlr)

abbrev pub first_digit : ℕ → ℕ
first_digit soma1 = if soma1 * 10 % 11 == 10 then 0 else soma1 * 10 % 11

abbrev pub digito_gerado : Option ℕ × Option ℕ → Option ℕ
digito_gerado (some soma1, some soma2) =
    some (first_digit soma1 * 10 + (soma2 + 2 * first_digit soma1) * 10 % 11)
digito_gerado _ = none

-- `digitoGerado != digitoDigitado`, where `NaN` differs from everything.
abbrev pub same_digits : Option ℕ → (ℕ → Bool) → Bool
same_digits none digitado = false
same_digits (some n) digitado = digitado n

abbrev pub compare_digits : Option ℕ → Option (ℕ → Bool) → Result Bool
compare_digits gerado none = throws eval_error
compare_digits gerado (some digitado) = ok (same_digits gerado digitado)

unfoldable pub is_cpf : Engine → Text → Result Bool
unfolding strip_marks sums
is_cpf engine string =
    let cpf : Text = strip_marks string in
    compare_digits (digito_gerado (sums 9 cpf 0 11 (some 0) (some 0)))
      (engine.eval (char_at cpf 9 ++ char_at cpf 10))
