-- ===== src/Validate/Stale.antt =====
-- scripts/validatejs.js, `isZipCode` and `isDate`: what a call does whose argument names no case.
pub mod Runs
use mathlib.Core.Path.{◌≡◌, refl}
use mathlib.Core.Logic.{◌≢◌}
use mathlib.Core.Option.{Option, none, some}
use mathlib.Core.List.{[], ◌∷◌}
use inroa.Base.{Text}
use inroa.Regex.{Regex}
use inroa.Validate.Engine.{throws, reference_error}
use inroa.Validate.Dates.{zip_reg_exp, is_zip_code, date_reg_exp, format_or_default, is_date}

-- A zip code without a country is never held to the American format: the first such check throws,
-- and after a check for a known country it is held to that country's format.
pub is_zip_code-stale :
    (zipcode earlier country : Text) (r : Regex) (last : Option Regex)
    → zipcode ≢ []
    → earlier ≢ []
    → zip_reg_exp country ≡ some r
    → ((is_zip_code zipcode none none).0 ≡ throws reference_error)
      × ((is_zip_code zipcode none (is_zip_code earlier (some country) last).1).0
          ≡ (is_zip_code zipcode (some country) last).0)
unfolding is_zip_code
is_zip_code-stale [] earlier country r last h k e = absurd (h refl)
is_zip_code-stale (c ∷ s) [] country r last h k e = absurd (k refl)
is_zip_code-stale (c ∷ s) (d ∷ t) country r last h k e = rw e (refl, refl)

-- A date checked for a format that has no case is held to the format of the last check that had
-- one, and throws if there was none.
pub is_date-stale :
    (date earlier : Text) (known unknown : Option Text) (r : Regex) (last : Option Regex)
    → date ≢ []
    → earlier ≢ []
    → date_reg_exp (format_or_default known) ≡ some r
    → date_reg_exp (format_or_default unknown) ≡ none
    → ((is_date date unknown none).0 ≡ throws reference_error)
      × ((is_date date unknown (is_date earlier known last).1).0 ≡ (is_date date known last).0)
unfolding is_date
is_date-stale [] earlier known unknown r last h k e f = absurd (h refl)
is_date-stale (c ∷ s) [] known unknown r last h k e f = absurd (k refl)
is_date-stale (c ∷ s) (d ∷ t) known unknown r last h k e f = rw (e, f) (refl, refl)
