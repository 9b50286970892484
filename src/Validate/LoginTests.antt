-- ===== src/Validate/LoginTests.antt =====
-- The theorems about rules at the login form of a page.
use Prim.Native.Nat.{ℕ}
use mathlib.Core.Path.{◌≡◌, refl}
use mathlib.Core.Logic.{◌↔◌, ◌⊎◌}
use mathlib.Core.Bool.{Bool, true, false}
use mathlib.Core.Option.{none, some}
use mathlib.Core.List.{[], ◌∷◌}
use native.Mathlib.Omega.{arith}
use inroa.Base.{Text, codes, if◌then◌else◌, text_eq, split, Holds}
use inroa.Validate.Engine.{ok, throws, type_error}
use inroa.Validate.Formats.{is_empty}
use inroa.Validate.Rules.{Rule, Validate, Document, silent, alert, rule_fails, apply}
use inroa.Validate.Rules.Laws.{errors_of, apply-errors_of, apply-throws}
use inroa.Validate.Login.{
  user_error, passwd_error, required, my_form, login_fails, verdicts, IsInk, apply-my_form,
}
use inroa.Validate.Tests.{sample_engine}

-- A user's name is given, and the password is blank.
abbrev page : Document
page = record {
  value = λ id.
      if text_eq id (codes "user")
      then some (codes "ana")
      else if text_eq id (codes "passwd")
      then some (codes " ")
      else none;
  has_element = λ id. false;
}

abbrev form : Validate ℕ
form = my_form sample_engine

abbrev fails : Rule ℕ → Bool
fails = login_fails sample_engine (codes "ana") (codes " ")

errors_run :
    errors_of sample_engine fails form.rules_array
    ≡ codes "* Voc&ecirc; deve informar sua senha!" ∷ []
unfolding my_form errors_of is_empty
errors_run = refl

apply-errors_of_example :
    ((errors_of sample_engine fails form.rules_array ≡ [])
      × ((apply sample_engine page none form).0 ≡ ok (true, silent)))
    ⊎ ((text : Text) × ((apply sample_engine page none form).0 ≡ ok (false, alert text))
        × (split 10 text ≡ errors_of sample_engine fails form.rules_array))
unfolding my_form errors_of is_empty
apply-errors_of_example =
    apply-errors_of sample_engine page fails form
      (verdicts sample_engine page (codes "ana") (codes " ") refl refl) (ground arith)
      (ground arith)

apply-my_form_example :
    ((apply sample_engine page (some (codes "MensagemErro")) form).0 ≡ ok (true, silent))
    ↔ (Holds IsInk (codes "ana") × Holds IsInk (codes " "))
apply-my_form_example =
    apply-my_form sample_engine page (some (codes "MensagemErro")) (codes "ana") (codes " ") refl
      refl

-- A page on which the field for the password is missing.
abbrev half_page : Document
half_page = record page {
  value = λ id. if text_eq id (codes "user") then some (codes " ") else none;
}

apply-throws_example :
    apply sample_engine half_page none form
    ≡ (throws type_error, record form { error_array = user_error ∷ []; e = false })
unfolding my_form errors_of is_empty rule_fails
apply-throws_example =
    apply-throws sample_engine half_page none (login_fails sample_engine (codes " ") []) type_error
      (required sample_engine (codes "user") user_error ∷ [])
      (required sample_engine (codes "passwd") passwd_error) [] form refl (((refl, refl), refl), tt)
      (refl, refl) refl
