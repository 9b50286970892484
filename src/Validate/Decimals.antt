-- ===== src/Validate/Decimals.antt =====
-- scripts/validatejs.js, `isDecimal`: the numbers that it accepts.
use Prim.Native.Nat.{ℕ, zero, suc, ◌+◌, ◌-◌, ◌*◌, ◌/◌, ◌%◌, ◌<◌}
use mathlib.Core.Path.{◌≡◌, refl, sym, ap, ◌∙◌}
use mathlib.Core.Logic.{◌↔◌, inl, inr}
use mathlib.Core.Bool.{Bool, true, false}
use mathlib.Core.List.{[], ◌∷◌, ◌++◌, append-nil, append_assoc}
use native.Mathlib.Omega.{arith}
use inroa.Base.{
  Text, codes, is_digit, decimal, decimal_digit, digits_value, if◌then◌else◌, All-append,
  Bool-cases, ltb,
}
use inroa.Regex.{test, Regex, Matches, alt, set, char, star, opt, range}
use inroa.Regex.Derivative.{test_iff}
use inroa.Regex.Shape.{InClass, Matches-char_iff, Matches-star_iff}
use inroa.Validate.Formats.{◌⋅◌, digit, decimal_reg_exp, is_decimal}

-- Digits behind a positive number in decimal text are that of a longer one.
decimal-append :
    (n : ℕ) (s : Text) → 0 < n → InClass is_digit s → decimal n ++ s ≡ decimal (digits_value n s)
decimal-append n [] positive h = append-nil (decimal n)
decimal-append n (c ∷ s) positive (h, hs) =
    let same : c - b'0' + b'0' ≡ c = ground arith in
    sym (append_assoc (decimal n) (c ∷ []) s)
    ∙ (ap (λ (t : Text). t ++ s)
          (ap (λ d. decimal n ++ d ∷ []) (sym same)
            ∙ sym (decimal_digit n (c - b'0') positive (ground arith)))
        ∙ decimal-append (n * 10 + (c - b'0')) s (omega arith) hs)

decimal_one : (n : ℕ) → n < 10 → decimal n ≡ (n + b'0') ∷ []
unfolding decimal
decimal_one n h = ground arith

-- The expression without sign and fraction: no zero stands in front of other digits.
abbrev whole_reg_exp : Regex
whole_reg_exp = alt (char b'0') (set (range b'1' b'9') ⋅ star digit)

record IsCanonical (s : Text) : Type 0 where
  first : ℕ
  rest : Text
  text : s ≡ first ∷ rest
  not_zero : range b'1' b'9' first ≡ true
  digits : InClass is_digit rest

-- The digits of a positive number do not begin with 0; the fuel is for the induction only.
decimal-IsCanonical : (f n : ℕ) → 0 < n → n < f → IsCanonical (decimal n)
decimal-IsCanonical zero n positive below = absurd (omega arith)
decimal-IsCanonical (suc f) n positive below = elim (Bool-cases (ltb n 10)) [
  | inl small ↦ record {
    first = n + b'0';
    rest = [];
    text = decimal_one n (ground arith);
    not_zero = ground arith;
    digits = tt;
  }
  | inr large ↦
      let shorter = decimal-IsCanonical f (n / 10) (ground arith) (ground arith) in
      let parts : n / 10 * 10 + n % 10 ≡ n = omega arith in
      record {
        first = shorter.first;
        rest = shorter.rest ++ (n % 10 + b'0') ∷ [];
        text =
            sym (ap decimal parts)
            ∙ (decimal_digit (n / 10) (n % 10) (ground arith) (omega arith)
                ∙ ap (λ (t : Text). t ++ (n % 10 + b'0') ∷ []) shorter.text);
        not_zero = shorter.not_zero;
        digits =
            (All-append (λ c. is_digit c ≡ true) shorter.rest _).1
              (shorter.digits, (ground arith, tt));
      }
]

Matches-whole : (s : Text) → Matches whole_reg_exp s → (n : ℕ) × (s ≡ decimal n)
Matches-whole s (inl zero_char) =
    (0, (Matches-char_iff b'0' s).0 zero_char ∙ sym (decimal_one 0 (omega arith)))
Matches-whole s (inr (u, v, e, (c, eu, h), k)) =
    let rest = (Matches-star_iff is_digit v).0 k in
    let same : c - b'0' + b'0' ≡ c = ground arith in
    let first : decimal (c - b'0') ≡ c ∷ [] =
      decimal_one (c - b'0') (ground arith) ∙ ap (λ d. d ∷ []) same in
    (
      digits_value (c - b'0') v,
      e
          ∙ (ap (λ (t : Text). t ++ v) (eu ∙ sym first)
              ∙ decimal-append (c - b'0') v (ground arith) rest),
    )

decimal-Matches : (n : ℕ) → Matches whole_reg_exp (decimal n)
decimal-Matches zero = inl ((Matches-char_iff b'0' _).1 (decimal_one 0 (omega arith)))
decimal-Matches (suc n) =
    let shape = decimal-IsCanonical (suc (suc n)) (suc n) (omega arith) (omega arith) in
    inr (
      shape.first ∷ [],
      shape.rest,
      shape.text,
      (shape.first, refl, shape.not_zero),
      (Matches-star_iff is_digit shape.rest).1 shape.digits,
    )

-- A point and digits, if there are any digits.
abbrev pub fraction_text : Text → Text
fraction_text [] = []
fraction_text (c ∷ s) = b'.' ∷ c ∷ s

-- A number as it is printed, with digits behind the point or none.
pub record IsDecimal (s : Text) : Type 0 where
  pub is_minus : Bool
  pub whole : ℕ
  pub fraction : Text
  pub digits : InClass is_digit fraction
  pub text : s ≡ (if is_minus then codes "-" else []) ++ (decimal whole ++ fraction_text fraction)

abbrev fraction_reg_exp : Regex
fraction_reg_exp = opt (char b'.' ⋅ digit ⋅ star digit)

Matches-fraction :
    (s : Text)
    → Matches fraction_reg_exp s
    → (f : Text) × (s ≡ fraction_text f) × InClass is_digit f
Matches-fraction s (inr e) = ([], e, tt)
Matches-fraction s (inl (u, v, e, dot, (w, x, ev, (c, ew, h), k))) = (
  c ∷ x,
  e ∙ rw ((Matches-char_iff b'.' u).0 dot, ev, ew) refl,
  (h, (Matches-star_iff is_digit x).0 k),
)

fraction-Matches : (f : Text) → InClass is_digit f → Matches fraction_reg_exp (fraction_text f)
fraction-Matches [] h = inr refl
fraction-Matches (c ∷ s) (h, hs) = inl (
  b'.' ∷ [],
  c ∷ s,
  refl,
  (Matches-char_iff b'.' _).1 refl,
  (c ∷ [], s, refl, (c, refl, h), (Matches-star_iff is_digit s).1 hs),
)

Matches-minus :
    (s : Text) → Matches (opt (char b'-')) s → (b : Bool) × (s ≡ (if b then codes "-" else []))
Matches-minus s (inl minus) = (true, (Matches-char_iff b'-' s).0 minus)
Matches-minus s (inr e) = (false, e)

minus-Matches : (b : Bool) → Matches (opt (char b'-')) (if b then codes "-" else [])
minus-Matches true = inl ((Matches-char_iff b'-' _).1 refl)
minus-Matches false = inr refl

Matches-IsDecimal : (s : Text) → Matches decimal_reg_exp s → IsDecimal s
unfolding decimal_reg_exp
Matches-IsDecimal s (u, v, e, minus, (w, x, ev, whole, fraction)) =
    let (b, eu) = Matches-minus u minus in
    let (n, ew) = Matches-whole w whole in
    let (f, ex, h) = Matches-fraction x fraction in
    record {
      is_minus = b;
      whole = n;
      fraction = f;
      digits = h;
      text = e ∙ rw (eu, ev, ew, ex) refl;
    }

IsDecimal-Matches : (s : Text) → IsDecimal s → Matches decimal_reg_exp s
unfolding decimal_reg_exp
IsDecimal-Matches s d = (
  if d.is_minus then codes "-" else [],
  decimal d.whole ++ fraction_text d.fraction,
  d.text,
  minus-Matches d.is_minus,
  (
    decimal d.whole,
    fraction_text d.fraction,
    refl,
    decimal-Matches d.whole,
    fraction-Matches d.fraction d.digits,
  ),
)

-- `isDecimal` accepts exactly an optional minus, a whole number as it is printed, without zeros in
-- front, and, if there are digits behind it, a point and these digits.
pub is_decimal_iff : (s : Text) → (is_decimal s ≡ true) ↔ IsDecimal s
unfolding is_decimal
is_decimal_iff [] = (
  λ h. cc,
  λ d.
      let m : test decimal_reg_exp [] ≡ true =
        (test_iff decimal_reg_exp []).1 (IsDecimal-Matches [] d) in
      cc,
)
is_decimal_iff (c ∷ s) = (
  λ h. Matches-IsDecimal (c ∷ s) ((test_iff decimal_reg_exp (c ∷ s)).0 h),
  λ d. (test_iff decimal_reg_exp (c ∷ s)).1 (IsDecimal-Matches (c ∷ s) d),
)
