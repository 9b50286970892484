-- ===== src/Validate/Formats.antt =====
-- scripts/validatejs.js: the validators that are one regular expression each.
use Prim.Native.Nat.{ℕ, ◌+◌}
use mathlib.Core.Bool.{Bool, false, not, ◌||◌}
use mathlib.Core.List.{[], ◌∷◌, ◌++◌}
use inroa.Base.{is_space, Text, codes, ◌==◌, is_digit, any, text_eq, if◌then◌else◌}
use inroa.Regex.{
  Regex, set, seq, alt, both, star, opt, plus, repeat, repeat_to, char, range, literal, any_char,
  anything, test,
}

infixr 60 ◌⋅◌
abbrev pub ◌⋅◌ : Regex → Regex → Regex
a ⋅ b = seq a b

abbrev pub digit : Regex
digit = set is_digit

abbrev pub is_lower : ℕ → Bool
is_lower = range b'a' b'z'

abbrev pub is_upper : ℕ → Bool
is_upper = range b'A' b'Z'

abbrev pub is_alnum : ℕ → Bool
is_alnum c = is_digit c || is_lower c || is_upper c

abbrev pub is_hex : ℕ → Bool
is_hex c = is_digit c || range b'a' b'f' c || range b'A' b'F' c

-- `[…]` of single characters.
abbrev pub one_of : Text → Regex
one_of cs = set (λ c. any (λ x. c == x) cs)

unfoldable pub is_equal : Text → Text → Bool
is_equal string1 string2 = text_eq string1 string2

-- `/^[0-9a-z]+$/i`
unfoldable pub is_alpha_latin : Text → Bool
unfolding test
is_alpha_latin string = test (plus (set is_alnum)) string

-- `/\S/`
unfoldable pub is_not_empty : Text → Bool
is_not_empty string = any (λ c. not (is_space c)) string

unfoldable pub is_empty : Text → Bool
is_empty s = not (any (λ c. not (is_space c)) s)

unfoldable pub is_num : Text → Bool
unfolding test
is_num number = test (plus digit) number

-- One number of a dotted quad: `[1]?[0-9]{1,2}|2([0-4][0-9]|5[0-5])`.
unfoldable pub octet : Regex
octet =
    alt (opt (char b'1') ⋅ repeat_to 1 1 digit)
      (char b'2' ⋅ alt (set (range b'0' b'4') ⋅ digit) (char b'5' ⋅ set (range b'0' b'5')))

unfoldable pub ip_reg_exp : Regex
ip_reg_exp = repeat 3 (octet ⋅ char b'.') ⋅ octet

unfoldable pub is_simple_ip : Text → Bool
unfolding ip_reg_exp octet test repeat repeat_to
is_simple_ip ip = test ip_reg_exp ip

-- `[a-z0-9-]` and `[_a-z0-9-]`.
abbrev pub is_label_char : ℕ → Bool
is_label_char c = is_lower c || is_digit c || (c == b'-')

abbrev pub is_local_char : ℕ → Bool
is_local_char c = (c == b'_') || is_label_char c

unfoldable pub email_reg_exp : Regex
email_reg_exp =
    plus (set is_local_char)
    ⋅ star (char b'.' ⋅ plus (set is_local_char))
    ⋅ char b'@'
    ⋅ plus (set is_label_char)
    ⋅ star (char b'.' ⋅ plus (set is_label_char))
    ⋅ char b'.'
    ⋅ repeat_to 2 2 (set is_lower)

unfoldable pub is_email_addr : Text → Bool
unfolding email_reg_exp test repeat_to
is_email_addr string = test email_reg_exp string

unfoldable pub is_md5 : Text → Bool
unfolding test repeat
is_md5 [] = false
is_md5 string = test (repeat 32 (set (λ c. range b'a' b'f' c || is_digit c))) string

-- `string.toLowerCase()`. Of the characters beyond ASCII only two become ASCII letters; the others
-- are kept, since the expressions below tell none of them from their lower case.
abbrev pub lower_char : ℕ → Text
lower_char c =
    if is_upper c
    then (c + 32) ∷ []
    else if c == 0x212a
    then codes "k"
    else if c == 0x130
    then b'i' ∷ 0x307 ∷ []
    else c ∷ []

unfoldable pub to_lower_case : Text → Text
to_lower_case [] = []
to_lower_case (c ∷ s) = lower_char c ++ to_lower_case s

-- `(((ht|f)tp(s?))\:\/\/)`, and `(\:[0-9]+)?(\/\S*)?`.
unfoldable pub scheme : Regex
scheme =
    alt (literal (codes "ht")) (literal (codes "f"))
    ⋅ literal (codes "tp")
    ⋅ opt (char b's')
    ⋅ literal (codes "://")

unfoldable pub port_and_path : Regex
port_and_path = opt (char b':' ⋅ plus digit) ⋅ opt (char b'/' ⋅ star (set (λ c. not (is_space c))))

unfoldable pub is_url : Text → Bool
unfolding scheme port_and_path to_lower_case test literal repeat_to
is_url [] = false
is_url string =
    test
      (scheme
        ⋅ plus (plus (set (λ c. is_alnum c || (c == b'-'))) ⋅ char b'.')
        ⋅ repeat_to 2 4 (set (λ c. is_lower c || is_upper c))
        ⋅ port_and_path)
      (to_lower_case string)

unfoldable pub is_url_to_ip : Text → Bool
unfolding scheme port_and_path to_lower_case test literal
is_url_to_ip [] = false
is_url_to_ip string =
    test (scheme ⋅ plus (set (λ c. is_alnum c || (c == b'-') || (c == b'.'))) ⋅ port_and_path)
      (to_lower_case string)

-- `[-]?`
abbrev pub opt_dash : Regex
opt_dash = opt (char b'-')

unfoldable pub guid_reg_exp : Regex
guid_reg_exp =
    opt (one_of (codes "{|("))
    ⋅ repeat 8 (set is_hex)
    ⋅ opt_dash
    ⋅ repeat 3 (repeat 4 (set is_hex) ⋅ opt_dash)
    ⋅ repeat 12 (set is_hex)
    ⋅ opt (one_of (codes ")|}"))

unfoldable pub is_guid : Text → Bool
unfolding guid_reg_exp test repeat
is_guid [] = false
is_guid guid = test guid_reg_exp guid

-- `([- ])\d{1,7}\1\d{1,6}\1`: the separator is one of two, and the same each time.
unfoldable pub isbn_groups : ℕ → Regex
isbn_groups separator =
    repeat_to 1 4 digit
    ⋅ char separator
    ⋅ repeat_to 1 6 digit
    ⋅ char separator
    ⋅ repeat_to 1 5 digit
    ⋅ char separator
    ⋅ set (λ c. is_digit c || (c == b'X'))

-- No `^`: any text may stand before. `(?=.{13}$)` speaks of the whole rest.
unfoldable pub isbn_reg_exp : Regex
isbn_reg_exp =
    anything
    ⋅ literal (codes "ISBN ")
    ⋅ both (repeat 13 any_char) (alt (isbn_groups b'-') (isbn_groups b' '))

unfoldable pub is_isbn : Text → Bool
unfolding isbn_reg_exp isbn_groups test repeat repeat_to literal
is_isbn [] = false
is_isbn number = test isbn_reg_exp number

unfoldable pub is_ssn : Text → Bool
unfolding test repeat
is_ssn [] = false
is_ssn number =
    test (repeat 3 digit ⋅ char b'-' ⋅ repeat 2 digit ⋅ char b'-' ⋅ repeat 4 digit) number

-- `/^-?(0|[1-9]{1}\d{0,})(\.(\d{1}\d{0,}))?$/`
unfoldable pub decimal_reg_exp : Regex
decimal_reg_exp =
    opt (char b'-')
    ⋅ alt (char b'0') (set (range b'1' b'9') ⋅ star digit)
    ⋅ opt (char b'.' ⋅ digit ⋅ star digit)

unfoldable pub is_decimal : Text → Bool
unfolding decimal_reg_exp test
is_decimal [] = false
is_decimal number = test decimal_reg_exp number

unfoldable pub is_not_null : Text → Bool
is_not_null string = not (text_eq string (codes "null"))
