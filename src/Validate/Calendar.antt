-- ===== src/Validate/Calendar.antt =====
-- scripts/validatejs.js, `isDate`: the dates that it accepts in its two numeric formats.
use mathlib.Core.Path.{◌≡◌, refl}
use mathlib.Core.Logic.{◌↔◌}
use mathlib.Core.Bool.{true}
use mathlib.Core.Option.{Option, some}
use mathlib.Core.List.{[], ◌∷◌, ◌++◌}
use inroa.Base.{ℕ, Text, codes}
use inroa.Regex.{Regex, Matches, seq, char, test}
use inroa.Regex.Derivative.{test_iff}
use inroa.Regex.Shape.{Matches-char_iff}
use inroa.Validate.Engine.{ok, ok_iff}
use inroa.Validate.Dates.{day, month, year, format_or_default, is_date}
use inroa.Validate.Numeral.{IsNumeral, day_iff, month_iff, year_iff}

-- Three numerals around two separators, each within its bounds; no bound depends on another part.
pub record IsDayMonthYear (s : Text) : Type 0 where
  pub dd : Text
  pub mm : Text
  pub yyyy : Text
  pub text : s ≡ dd ++ b'/' ∷ (mm ++ b'/' ∷ yyyy)
  pub day_range : IsNumeral 2 0 31 dd
  pub month_range : IsNumeral 2 0 12 mm
  pub year_range : IsNumeral 4 1900 2099 yyyy

pub record IsYearMonthDay (s : Text) : Type 0 where
  pub yyyy : Text
  pub mm : Text
  pub dd : Text
  pub text : s ≡ yyyy ++ b'-' ∷ (mm ++ b'-' ∷ dd)
  pub year_range : IsNumeral 4 1900 2099 yyyy
  pub month_range : IsNumeral 2 0 12 mm
  pub day_range : IsNumeral 2 0 31 dd

-- Three parts with a separator after the first and the second.
abbrev three_parts : Regex → ℕ → Regex → Regex → Regex
three_parts a c b d = seq a (seq (char c) (seq b (seq (char c) d)))

three_parts_to :
    (a : Regex) (c : ℕ) (b d : Regex) (s : Text)
    → Matches (three_parts a c b d) s
    → (x : Text) × (y : Text) × (z : Text) × (s ≡ x ++ c ∷ (y ++ c ∷ z))
      × Matches a x
      × Matches b y
      × Matches d z
three_parts_to a c b d s (u, v, e, h, (u1, v1, e1, h1, (u2, v2, e2, h2, (u3, v3, e3, h3, h4)))) = (
  u,
  u2,
  v3,
  rw (e, e1, e2, e3, (Matches-char_iff c u1).0 h1, (Matches-char_iff c u3).0 h3) refl,
  h,
  h2,
  h4,
)

three_parts_from :
    (a : Regex) (c : ℕ) (b d : Regex) (x y z : Text)
    → Matches a x
    → Matches b y
    → Matches d z
    → Matches (three_parts a c b d) (x ++ c ∷ (y ++ c ∷ z))
three_parts_from a c b d x y z h k l =
    let dot : Matches (char c) (c ∷ []) = (Matches-char_iff c _).1 refl in
    (
      x,
      c ∷ (y ++ c ∷ z),
      refl,
      h,
      (c ∷ [], y ++ c ∷ z, refl, dot, (y, c ∷ z, refl, k, (c ∷ [], z, refl, dot, l))),
    )

fr_iff : (s : Text) → (test (three_parts day b'/' month year) s ≡ true) ↔ IsDayMonthYear s
fr_iff s = (to, from)
  where
    to : test (three_parts day b'/' month year) s ≡ true → IsDayMonthYear s
    to h =
        let (x, y, z, e, k, l, m) = three_parts_to day b'/' month year s ((test_iff _ s).0 h) in
        record {
          dd = x;
          mm = y;
          yyyy = z;
          text = e;
          day_range = (day_iff x).0 k;
          month_range = (month_iff y).0 l;
          year_range = (year_iff z).0 m;
        }

    from : IsDayMonthYear s → test (three_parts day b'/' month year) s ≡ true
    from q = (test_iff _ s).1 (
        rw q.text (
          three_parts_from day b'/' month year q.dd q.mm q.yyyy ((day_iff _).1 q.day_range)
            ((month_iff _).1 q.month_range) ((year_iff _).1 q.year_range)))

us_iff : (s : Text) → (test (three_parts year b'-' month day) s ≡ true) ↔ IsYearMonthDay s
us_iff s = (to, from)
  where
    to : test (three_parts year b'-' month day) s ≡ true → IsYearMonthDay s
    to h =
        let (x, y, z, e, k, l, m) = three_parts_to year b'-' month day s ((test_iff _ s).0 h) in
        record {
          yyyy = x;
          mm = y;
          dd = z;
          text = e;
          year_range = (year_iff x).0 k;
          month_range = (month_iff y).0 l;
          day_range = (day_iff z).0 m;
        }

    from : IsYearMonthDay s → test (three_parts year b'-' month day) s ≡ true
    from q = (test_iff _ s).1 (
        rw q.text (
          three_parts_from year b'-' month day q.yyyy q.mm q.dd ((year_iff _).1 q.year_range)
            ((month_iff _).1 q.month_range) ((day_iff _).1 q.day_range)))

not-nil : (x : Text) (c : ℕ) (y : Text) → ¬ ([] ≡ x ++ c ∷ y)
not-nil [] c y e = cc
not-nil (d ∷ x) c y e = cc

-- With the format `FR`, or none, `isDate` accepts exactly DD/MM/YYYY with a day up to 31, a month up
-- to 12 and a year from 1900 to 2099 (the day and the month may be 00, and the day may be one that
-- its month does not have).
pub is_date_fr_iff :
    (date : Text) (format : Option Text) (last : Option Regex)
    → format_or_default format ≡ codes "FR"
    → ((is_date date format last).0 ≡ ok true) ↔ IsDayMonthYear date
unfolding is_date
is_date_fr_iff [] format last f = (λ h. cc, λ q. absurd (not-nil q.dd _ _ q.text))
is_date_fr_iff (c ∷ s) format last f = rw f (ok_iff (fr_iff (c ∷ s)))

-- With the format `US`, `isDate` accepts exactly YYYY-MM-DD with the same bounds.
pub is_date_us_iff :
    (date : Text) (last : Option Regex)
    → ((is_date date (some (codes "US")) last).0 ≡ ok true) ↔ IsYearMonthDay date
unfolding is_date
is_date_us_iff [] last = (λ h. cc, λ q. absurd (not-nil q.yyyy _ _ q.text))
is_date_us_iff (c ∷ s) last = ok_iff (us_iff (c ∷ s))
