-- ===== src/Validate/Rules.antt =====
-- scripts/validatejs.js: the object `Validate`, which collects rules, checks them against the form
-- and reports the errors.
pub mod Laws
use mathlib.Core.Bool.{Bool, true, false, not, ◌&&◌}
use mathlib.Core.Option.{Option, none, some}
use mathlib.Core.List.{List, [], ◌∷◌, ◌++◌}
use inroa.Base.{Text, codes, if◌then◌else◌, text_eq, join, replace_all}
use inroa.Regex.{Regex}
use inroa.Validate.Engine.{Engine, Result, ok, throws, type_error}
use inroa.Validate.Formats.{
  is_equal, is_alpha_latin, is_empty, is_num, is_simple_ip, is_email_addr, is_url, is_url_to_ip,
  is_decimal, is_not_null,
}
use inroa.Validate.Dates.{is_zip_code, is_date}
use inroa.Validate.Chars.{has_valid_chars}
use inroa.Validate.Cpf.{is_cpf}

-- A rule as the pages write it; a member that a rule leaves out is `none`. `Min` and `Max` are
-- numbers of the engine.
pub record Rule (Float : Type 0) : Type 0 where
  pub id : Text
  pub option : Text
  pub error : Text
  pub chars : Option Text
  pub min : Option Float
  pub max : Option Float
  pub country : Option Text
  pub format : Option Text
  pub to : Option Text

-- The object, and the two variables that `isZipCode` and `isDate` assign outside it.
pub record Validate (Float : Type 0) : Type 0 where
  pub error_array : List Text
  pub rules_array : List (Rule Float)
  pub e : Bool
  pub zpc_reg_exp : Option Regex
  pub reg_exp_format : Option Regex

-- A page: the values of the fields by their id, and which ids it has.
pub record Document : Type 0 where
  pub value : Text → Option Text
  pub has_element : Text → Bool

-- `document.getElementById(s).value`
abbrev pub get_value : Document → Text → Result Text
get_value document s = elim (document.value s) [ none ↦ throws type_error | some v ↦ ok v ]

-- The method `getValue` reads the value as well, and returns nothing.
abbrev pub validate_get_value : Document → Text → Result (Unit {0})
validate_get_value document id = elim (document.value id) [
  | none ↦ throws type_error
  | some v ↦ ok tt
]

infixl 5 ◌>>=◌
abbrev pub ◌>>=◌ : {A B : Type 0} → Result A → (A → Result B) → Result B
ok a >>= k = k a
throws f >>= k = throws f

-- An absent argument: `undefined.replace` throws, `getElementById(undefined)` looks for its name.
abbrev pub required_text : Option Text → Result Text
required_text none = throws type_error
required_text (some s) = ok s

abbrev pub id_text : Option Text → Text
id_text none = codes "undefined"
id_text (some s) = s

-- A comparison with an absent bound is false.
abbrev pub le_opt : {F : Type 0} → (F → F → Bool) → Option F → Option F → Bool
le_opt le (some a) (some b) = le a b
le_opt le _ _ = false

-- What `Apply` shows: nothing, a dialog, or the content of an element.
pub data Report : Type 0 where
  silent : Report
  alert : Text → Report
  inner_html : Text → Text → Report

-- `error_array.toString().replace(/\,/gi, mark)`
abbrev pub message : Text → List Text → Text
message mark errors = replace_all b',' mark (join (codes ",") errors)

abbrev pub line_break : Text
line_break = 10 ∷ []

-- Without an element (absent or the empty text) a dialog is shown; an element has to exist.
abbrev pub report_on : Document → Option Text → List Text → Result (Bool × Report)
report_on document none errors = ok (false, alert (message line_break errors))
report_on document (some []) errors = ok (false, alert (message line_break errors))
report_on document (some (c ∷ s)) errors =
    if document.has_element (c ∷ s)
    then ok (false, inner_html (c ∷ s) (message (codes "<br/>") errors))
    else throws type_error

module _ (engine : Engine) where
  open engine use {Float, to_number, is_nan, round, float_eq, float_le}

  unfoldable pub is_integer_in_range : Text → Option Float → Option Float → Bool
  is_integer_in_range n min max =
      let num : Float = to_number n in
      if is_nan num
      then false
      else if not (float_eq num (round num))
      then false
      else le_opt float_le min (some num) && le_opt float_le (some num) max

  -- Whether the rule pushes its error, by its option; an unknown option is no case and pushes
  -- nothing. `AlphaLatin` has no `!`.
  unfoldable pub rule_fails : Document → Rule Float → Result Bool
  rule_fails document rule =
      let value : Result Text = get_value document rule.id in
      if text_eq rule.option (codes "ValidChars")
      then (do
        v ← value
        chars ← required_text rule.chars
        b ← has_valid_chars engine v chars false
        ok (not b))
      else if text_eq rule.option (codes "AlphaLatin")
      then (do v ← value; ok (is_alpha_latin v))
      else if text_eq rule.option (codes "required")
      then (do v ← value; ok (is_empty v))
      else if text_eq rule.option (codes "integerRange")
      then (do v ← value; ok (not (is_integer_in_range v rule.min rule.max)))
      else if text_eq rule.option (codes "Number")
      then (do v ← value; ok (not (is_num v)))
      else if text_eq rule.option (codes "email")
      then (do v ← value; ok (not (is_email_addr v)))
      else if text_eq rule.option (codes "url")
      then (do v ← value; ok (not (is_url v)))
      else if text_eq rule.option (codes "urlcomip")
      then (do v ← value; ok (not (is_url_to_ip v)))
      else if text_eq rule.option (codes "Decimal")
      then (do v ← value; ok (not (is_decimal v)))
      else if text_eq rule.option (codes "isEqual")
      then (do v ← value; w ← get_value document (id_text rule.to); ok (not (is_equal v w)))
      else if text_eq rule.option (codes "isCPF")
      then (do v ← value; b ← is_cpf engine v; ok (not b))
      else if text_eq rule.option (codes "isIP")
      then (do v ← value; ok (not (is_simple_ip v)))
      else if text_eq rule.option (codes "isnotnull")
      then (do v ← value; ok (not (is_not_null v)))
      else ok false

  abbrev negate : Result Bool → Result Bool
  negate (ok b) = ok (not b)
  negate (throws f) = throws f

  -- The two options whose test leaves a variable behind.
  abbrev zip_fails : Result Text → Rule Float → Validate Float → Result Bool × Validate Float
  zip_fails (throws f) rule form = (throws f, form)
  zip_fails (ok v) rule form =
      let (b, r) = is_zip_code v rule.country form.zpc_reg_exp in
      (negate b, record form { zpc_reg_exp = r })

  abbrev date_fails : Result Text → Rule Float → Validate Float → Result Bool × Validate Float
  date_fails (throws f) rule form = (throws f, form)
  date_fails (ok v) rule form =
      let (b, r) = is_date v rule.format form.reg_exp_format in
      (negate b, record form { reg_exp_format = r })

  unfoldable pub run_rule : Document → Rule Float → Validate Float → Result Bool × Validate Float
  run_rule document rule form =
      if text_eq rule.option (codes "zipCode")
      then zip_fails (get_value document rule.id) rule form
      else if text_eq rule.option (codes "date")
      then date_fails (get_value document rule.id) rule form
      else (rule_fails document rule, form)

  -- `this.error_array.push(rule.error); this.e = false`
  abbrev pub push_error : Rule Float → Validate Float → Validate Float
  push_error rule form = record form {
    error_array = form.error_array ++ rule.error ∷ [];
    e = false;
  }

  abbrev after_rule : Rule Float → Bool → Validate Float → Validate Float
  after_rule rule fails form = if fails then push_error rule form else form

  -- A throw ends the loop, and the form stays as it is then.
  abbrev next_rule :
      Rule Float
      → Result Bool × Validate Float
      → (Validate Float → Result (Unit {0}) × Validate Float)
      → Result (Unit {0}) × Validate Float
  next_rule rule (throws f, form) rest = (throws f, form)
  next_rule rule (ok fails, form) rest = rest (after_rule rule fails form)

  -- The loop of `check`.
  unfoldable pub check_rules :
      Document → List (Rule Float) → Validate Float → Result (Unit {0}) × Validate Float
  check_rules document [] form = (ok tt, form)
  check_rules document (rule ∷ rules) form =
      next_rule rule (run_rule document rule form) (check_rules document rules)

  unfoldable pub check : Document → Validate Float → Result (Unit {0}) × Validate Float
  unfolding check_rules run_rule rule_fails is_integer_in_range
  check document form =
      check_rules document form.rules_array (record form { error_array = []; e = true })

  unfoldable pub initialize : Validate Float
  initialize = record {
    error_array = [];
    rules_array = [];
    e = true;
    zpc_reg_exp = none;
    reg_exp_format = none;
  }

  unfoldable pub add_rules : Rule Float → Validate Float → Validate Float
  add_rules rule form = record form { rules_array = form.rules_array ++ rule ∷ [] }

  abbrev pub finish :
      Document
      → Option Text
      → Result (Unit {0}) × Validate Float
      → Result (Bool × Report) × Validate Float
  finish document el (throws f, form) = (throws f, form)
  finish document el (ok u, form) =
      (if form.e then ok (true, silent) else report_on document el form.error_array, form)

  -- `Apply`: the result, and what the user is shown.
  unfoldable pub apply :
      Document → Option Text → Validate Float → Result (Bool × Report) × Validate Float
  unfolding check
  apply document el form = finish document el (check document form)
