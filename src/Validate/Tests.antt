-- ===== src/Validate/Tests.antt =====
-- Runs of the validators, and the theorems about them at concrete inputs.
use Prim.Native.Nat.{ℕ, ◌+◌, ◌-◌, ◌*◌}
use mathlib.Core.Path.{◌≡◌, refl}
use mathlib.Core.Logic.{◌↔◌, ◌≢◌}
use mathlib.Core.Bool.{Bool, true, false, ◌&&◌}
use mathlib.Core.Option.{Option, none, some}
use mathlib.Core.List.{[], ◌∷◌}
use native.Mathlib.Omega.{arith}
use inroa.Base.{Text, codes, ◌==◌, leb, if◌then◌else◌, is_digit, digit_value}
use inroa.Regex.Shape.{InClass}
use inroa.Validate.Engine.{Engine, ok}
use inroa.Validate.Formats.{
  is_simple_ip, is_email_addr, to_lower_case, is_url, is_url_to_ip, is_isbn, is_decimal,
}
use inroa.Validate.Platform.{is_platform}
use inroa.Validate.Dates.{is_zip_code, is_date, zip_reg_exp, date_reg_exp}
use inroa.Validate.Calendar.{IsDayMonthYear, is_date_fr_iff}
use inroa.Validate.Url.{IsUrl}
use inroa.Validate.Url.Laws.{is_url_iff}
use inroa.Validate.Email.{IsEmail, is_email_addr_iff}
use inroa.Validate.Decimals.{IsDecimal, is_decimal_iff}
use inroa.Validate.Stale.Runs.{last_known, run_calls, run_calls-stale}
use inroa.Validate.Ip.{IsDottedQuad, is_simple_ip_iff}
use inroa.Validate.Chars.{has_valid_chars, has_valid_chars_iff, in_class}
use inroa.Validate.Cpf.{is_cpf, strip_marks, sums, digito_gerado}
use inroa.Validate.Cpf.Bounds.{AtMost, digito_gerado-bounds}
use inroa.Validate.Cpf.Laws.{HasCheckDigits, first_check, weighted, is_cpf_iff, is_cpf_of_ten}

ip_runs : (is_simple_ip (codes "10.0.255.1") ≡ true) × (is_simple_ip (codes "10.0.256.1") ≡ false)
unfolding is_simple_ip
ip_runs = (refl, refl)

email_runs : (is_email_addr (codes "a.b@c.org") ≡ true) × (is_email_addr (codes "A@c.org") ≡ false)
unfolding is_email_addr
email_runs = (refl, refl)

url_runs :
    (is_url (codes "HTTP://a.org:80/x y") ≡ false)
    × (is_url (codes "HTTP://a.org:80/x") ≡ true)
    × (is_url_to_ip (codes "https://10.0.0.1/feb") ≡ true)
unfolding is_url is_url_to_ip
url_runs = (refl, refl, refl)

isbn_runs :
    (is_isbn (codes "ISBN 85-359-0277-5") ≡ true) × (is_isbn (codes "ISBN 85-359 0277-5") ≡ false)
unfolding is_isbn
isbn_runs = (refl, refl)

decimal_runs : (is_decimal (codes "-0.50") ≡ true) × (is_decimal (codes "01") ≡ false)
unfolding is_decimal
decimal_runs = (refl, refl)

-- `\win` needs a letter before "in"; `\sun` needs white space before "un".
platform_runs :
    (is_platform (codes "Win32") (codes "win") ≡ true)
    × (is_platform (codes "Linux x86_64") (codes "nix") ≡ true)
    × (is_platform (codes "SunOS") (codes "nix") ≡ false)
unfolding is_platform
platform_runs = (refl, refl, refl)

date_runs :
    ((is_date (codes "00/00/2000") none none).0 ≡ ok true)
    × ((is_date (codes "Mai 02, 1999") (some (codes "MMM dd, yyyy")) none).0 ≡ ok false)
    × ((is_date (codes "March 02, 1999") (some (codes "MMM dd, yyyy")) none).0 ≡ ok true)
unfolding is_date
date_runs = (refl, refl, refl)

is_simple_ip_iff_example :
    (is_simple_ip (codes "10.0.255.1") ≡ true) ↔ IsDottedQuad (codes "10.0.255.1")
is_simple_ip_iff_example = is_simple_ip_iff (codes "10.0.255.1")

is_date_fr_iff_example :
    ((is_date (codes "31/02/2014") none none).0 ≡ ok true) ↔ IsDayMonthYear (codes "31/02/2014")
is_date_fr_iff_example = is_date_fr_iff (codes "31/02/2014") none none refl

-- An engine whose numbers are the naturals, whose case table is that of ASCII, and whose `eval`
-- knows two decimal digits and nothing else.
pub sample_eval : Text → Option (ℕ → Bool)
sample_eval (a ∷ b ∷ []) =
    if is_digit a && is_digit b then some (λ n. n == digit_value a * 10 + digit_value b) else none
sample_eval _ = none

pub sample_eval_digits :
    (a b : ℕ)
    → is_digit a ≡ true
    → is_digit b ≡ true
    → sample_eval (a ∷ b ∷ []) ≡ some (λ n. n == digit_value a * 10 + digit_value b)
unfolding sample_eval
sample_eval_digits a b h k = rw (h, k)

abbrev pub sample_engine : Engine
sample_engine = record {
  Float = ℕ;
  to_number = λ s. 0;
  is_nan = λ x. false;
  round = λ x. x;
  float_eq = λ x y. x == y;
  float_le = λ x y. leb x y;
  fold_case = λ c. if leb b'a' c && leb c b'z' then c - 32 else c;
  eval = sample_eval;
  eval_digits = sample_eval_digits;
}

cpf_runs :
    (is_cpf sample_engine (codes "529.982.247-25") ≡ ok true)
    × (is_cpf sample_engine (codes "52998224726") ≡ ok false)
unfolding is_cpf sample_eval
cpf_runs = (refl, refl)

eight_digits : (InClass is_digit (codes "529982247")) × (InClass is_digit (codes "111222337"))
eight_digits = ground arith

is_cpf_iff_example :
    (is_cpf sample_engine (codes "529.982.247-25") ≡ ok true)
    ↔ HasCheckDigits (codes "529982247") b'2' b'5'
unfolding strip_marks weighted
is_cpf_iff_example =
    is_cpf_iff sample_engine (codes "529.982.247-25") (codes "529982247") b'2' b'5' refl refl
      eight_digits.0 refl refl (omega arith)

-- 111.222.337-10 is valid and rejected; 111.222.337-20 is accepted.
is_cpf_of_ten_example :
    (HasCheckDigits (codes "111222337") b'1' b'0'
      → is_cpf sample_engine (codes "111.222.337-10") ≡ ok false)
    × ((is_cpf sample_engine (codes "111.222.337-10") ≡ ok true)
        ↔ ((digit_value b'1' ≡ first_check (codes "111222337") + 1) × (digit_value b'0' ≡ 0)))
unfolding strip_marks weighted
is_cpf_of_ten_example =
    is_cpf_of_ten sample_engine (codes "111.222.337-10") (codes "111222337") b'1' b'0' refl refl
      eight_digits.1 refl refl refl

cpf_of_ten_runs :
    (is_cpf sample_engine (codes "111.222.337-10") ≡ ok false)
    × (is_cpf sample_engine (codes "111.222.337-20") ≡ ok true)
unfolding is_cpf sample_eval
cpf_of_ten_runs = (refl, refl)

has_valid_chars_iff_example :
    (has_valid_chars sample_engine (codes "Ba-9") (codes "abc-9\\") false ≡ ok true) ↔ (
      (codes "Ba-9" ≢ []) × InClass (in_class sample_engine false (codes "abc-9\\")) (codes "Ba-9"))
has_valid_chars_iff_example =
    has_valid_chars_iff sample_engine (codes "Ba-9") (codes "abc-9\\") false (ground arith) refl

-- After a check for Canada, and one for a country without a case, a third without a country.
run_calls-stale_example :
    ((is_zip_code (codes "90210") none (
        run_calls is_zip_code none
          ((codes "x", some (codes "CA")) ∷ (codes "y", some (codes "BR")) ∷ []))).0
      ≡ (is_zip_code (codes "90210") (some (codes "CA")) none).0)
    × ((is_date (codes "90210") none (
          run_calls is_date none
            ((codes "x", some (codes "CA")) ∷ (codes "y", some (codes "BR")) ∷ []))).0
        ≡ (is_date (codes "90210") none none).0)
unfolding last_known zip_reg_exp date_reg_exp
run_calls-stale_example =
    run_calls-stale ((codes "x", some (codes "CA")) ∷ (codes "y", some (codes "BR")) ∷ [])
      (codes "90210") none (λ e. cc)

is_email_addr_iff_example :
    (is_email_addr (codes "feb@inf.ufrgs.br") ≡ true) ↔ IsEmail (codes "feb@inf.ufrgs.br")
is_email_addr_iff_example = is_email_addr_iff (codes "feb@inf.ufrgs.br")

digito_gerado-bounds_example :
    AtMost 486 (sums 9 (codes "99999999999") 0 11 (some 0) (some 0)).0
    × AtMost 567 (sums 9 (codes "99999999999") 0 11 (some 0) (some 0)).1
    × AtMost 100 (digito_gerado (sums 9 (codes "99999999999") 0 11 (some 0) (some 0)))
digito_gerado-bounds_example = digito_gerado-bounds (codes "99999999999")

abbrev repository : Text
repository = codes "HTTP://feb.ufrgs.br:8080/feb"

is_url_iff_example : (is_url repository ≡ true) ↔ IsUrl (to_lower_case repository)
is_url_iff_example = is_url_iff repository

is_decimal_iff_example : (is_decimal (codes "-12.50") ≡ true) ↔ IsDecimal (codes "-12.50")
is_decimal_iff_example = is_decimal_iff (codes "-12.50")
