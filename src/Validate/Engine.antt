-- ===== src/Validate/Engine.antt =====
-- What scripts/validatejs.js takes from the browser and this library does not define: numbers in
-- floating point, the case table of Unicode, and `eval`.
use Prim.Native.Nat.{ℕ, ◌+◌, ◌*◌}
use mathlib.Core.Path.{◌≡◌}
use mathlib.Core.Bool.{Bool, true}
use mathlib.Core.Option.{Option, some}
use mathlib.Core.List.{[], ◌∷◌}
pub use inroa.Base.{
  Failure, type_error, reference_error, eval_error, not_one_class, Result, ok, throws, ok_iff,
}
use inroa.Base.{Text, is_digit, digit_value, ◌==◌}

pub record Engine : Type 1 where
  -- The doubles: `Number(text)`, `isNaN`, `Math.round`, `==` and `<=`.
  pub Float : Type 0
  pub to_number : Text → Float
  pub is_nan : Float → Bool
  pub round : Float → Float
  pub float_eq : Float → Float → Bool
  pub float_le : Float → Float → Bool
  -- The character to which a class with the flag `i` compares (Unicode's simple upper case).
  pub fold_case : ℕ → ℕ
  -- `eval(code)`: `none` if it throws, else the test `n == value` for a natural number `n`.
  pub eval : Text → Option (ℕ → Bool)
  -- Two decimal digits are a numeral, also where the first is 0.
  pub eval_digits :
      (a b : ℕ)
      → is_digit a ≡ true
      → is_digit b ≡ true
      → eval (a ∷ b ∷ []) ≡ some (λ n. n == digit_value a * 10 + digit_value b)
