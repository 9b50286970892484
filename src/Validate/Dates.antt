-- ===== src/Validate/Dates.antt =====
-- scripts/validatejs.js: `isZipCode` and `isDate`. Each assigns its expression to a variable that is
-- not declared, so a call whose argument names no case tests the expression of an earlier call.

use mathlib.Core.Bool.{Bool, false, ◌||◌}
use mathlib.Core.Option.{Option, none, some}
use mathlib.Core.List.{[], ◌∷◌}
use inroa.Base.{is_space, String, Text, codes, text_eq, if◌then◌else◌}
use inroa.Regex.{Regex, set, alt, opt, repeat, char, range, literal, test}
use inroa.Validate.Engine.{Result, ok, throws, reference_error}
use inroa.Validate.Formats.{◌⋅◌, digit, is_lower, is_upper}

-- `zpcRegExp.test(s)` and `RegExpformat.test(s)`, where the variable may not exist.
abbrev pub test_last : Option Regex → Text → Result Bool
test_last none s = throws reference_error
test_last (some r) s = ok (test r s)

-- What the variable holds after the `switch`.
abbrev pub assigned : Option Regex → Option Regex → Option Regex
assigned none last = last
assigned (some r) last = some r

unfoldable pub five_digits : Regex
five_digits = repeat 5 digit

-- The `switch` on the country.
unfoldable pub zip_reg_exp : Text → Option Regex
zip_reg_exp country =
    if text_eq country (codes "US")
    then some (alt five_digits (five_digits ⋅ char b'-' ⋅ repeat 4 digit))
    else if text_eq country (codes "MA")
    then some five_digits
    else if text_eq country (codes "CA")
    then some (set is_upper ⋅ digit ⋅ set is_upper ⋅ char b' ' ⋅ digit ⋅ set is_upper ⋅ digit)
    else if text_eq country (codes "DU")
    then some (
        set (range b'1' b'9')
        ⋅ repeat 3 digit
        ⋅ opt (set is_space)
        ⋅ repeat 2 (set (λ c. is_lower c || is_upper c)))
    else if text_eq country (codes "FR")
    then some five_digits
    else if text_eq country (codes "Monaco")
    then some (literal (codes "MC-") ⋅ five_digits)
    else none

-- An absent country is `undefined`: the default goes to `format`, which nothing reads.
abbrev pub switch_country : Option Text → Option Regex
switch_country none = none
switch_country (some country) = zip_reg_exp country

-- The result, and `zpcRegExp` after the call.
unfoldable pub is_zip_code : Text → Option Text → Option Regex → Result Bool × Option Regex
unfolding zip_reg_exp five_digits test repeat literal
is_zip_code [] country last = (ok false, last)
is_zip_code zipcode country last =
    let now : Option Regex = assigned (switch_country country) last in (test_last now zipcode, now)

-- `([0-2]\d|[3][0-1])`, `([0]\d|[1][0-2])` and `([2][0]|[1][9])\d{2}`.
unfoldable pub day : Regex
day = alt (set (range b'0' b'2') ⋅ digit) (char b'3' ⋅ set (range b'0' b'1'))

unfoldable pub month : Regex
month = alt (char b'0' ⋅ digit) (char b'1' ⋅ set (range b'0' b'2'))

unfoldable pub year : Regex
year = alt (char b'2' ⋅ char b'0') (char b'1' ⋅ char b'9') ⋅ repeat 2 digit

-- A month's name, whole or short.
abbrev pub short : String → String → Regex
short head rest = literal (codes head) ⋅ opt (literal (codes rest))

-- The names as the file spells them (the second one is "Fév" read in the wrong encoding).
unfoldable pub month_fr : Regex
month_fr = alt (short "Jan" "vier") (
    alt (short "F√©v" "rier") (
      alt (literal (codes "Mars")) (
        alt (short "Avr" "il") (
          alt (literal (codes "Mai")) (
            alt (literal (codes "Juin")) (
              alt (short "Juil" "let") (
                alt (literal (codes "Aout")) (
                  alt (short "Sep" "tembre") (
                    alt (short "Oct" "obre")
                      (alt (short "Nov" "ember") (short "Dec" "embre")))))))))))

unfoldable pub month_en : Regex
month_en =
    alt
      (char b'J'
        ⋅ alt (literal (codes "anuary"))
            (char b'u' ⋅ alt (literal (codes "ne")) (literal (codes "ly"))))
      (alt (literal (codes "February")) (
        alt (literal (codes "Ma") ⋅ alt (literal (codes "rch")) (char b'y')) (
          alt (char b'A' ⋅ alt (literal (codes "pril")) (literal (codes "ugust"))) (
            alt
              (alt (literal (codes "Sept")) (alt (literal (codes "Nov")) (literal (codes "Dec")))
                ⋅ literal (codes "em"))
              (literal (codes "Octo"))
            ⋅ literal (codes "ber")))))

-- The `switch` on the format.
unfoldable pub date_reg_exp : Text → Option Regex
date_reg_exp format =
    if text_eq format (codes "FR")
    then some (day ⋅ char b'/' ⋅ month ⋅ char b'/' ⋅ year)
    else if text_eq format (codes "US")
    then some (year ⋅ char b'-' ⋅ month ⋅ char b'-' ⋅ day)
    else if text_eq format (codes "SHORTFR")
    then some (day ⋅ char b'/' ⋅ month ⋅ char b'/' ⋅ repeat 2 digit)
    else if text_eq format (codes "SHORTUS")
    then some (repeat 2 digit ⋅ char b'-' ⋅ month ⋅ char b'-' ⋅ day)
    else if text_eq format (codes "dd MMM yyyy")
    then some (
        day
        ⋅ set is_space
        ⋅ month_fr
        ⋅ set is_space
        ⋅ alt (char b'2' ⋅ char b'0') (char b'1' ⋅ alt (char b'1') (char b'9'))
        ⋅ repeat 2 digit)
    else if text_eq format (codes "MMM dd, yyyy")
    then some (month_en ⋅ set is_space ⋅ day ⋅ char b',' ⋅ set is_space ⋅ year)
    else none

-- `if (!format) format = 'FR'`.
abbrev pub format_or_default : Option Text → Text
format_or_default none = codes "FR"
format_or_default (some []) = codes "FR"
format_or_default (some (c ∷ s)) = c ∷ s

-- The result, and `RegExpformat` after the call.
unfoldable pub is_date : Text → Option Text → Option Regex → Result Bool × Option Regex
unfolding date_reg_exp day month year month_fr month_en literal repeat test
is_date [] format last = (ok false, last)
is_date date format last =
    let now : Option Regex = assigned (date_reg_exp (format_or_default format)) last in
    (test_last now date, now)
