-- ===== src/Validate/Rules/Laws.antt =====
-- What `check` and `Apply` say about the rules.
use mathlib.Core.Path.{◌≡◌, refl, sym, ap, ◌∙◌}
use mathlib.Core.Logic.{◌⊎◌, inl, inr}
use mathlib.Core.Bool.{Bool, true, false}
use mathlib.Core.Option.{Option, none}
use mathlib.Core.List.{List, [], ◌∷◌, ◌++◌, append_assoc, append-nil}
use native.Mathlib.Omega.{arith}
use inroa.Base.{
  Text, codes, if◌then◌else◌, text_eq, All, IsFree, split, split-join, replace_all-join, Bool-cases,
}
use inroa.Validate.Engine.{Engine, Result, ok, throws, Failure}
use inroa.Validate.Rules.{
  Rule, Validate, Document, Report, silent, alert, rule_fails, run_rule, push_error, check_rules,
  check, finish, apply, message, line_break,
}

if_self : (b : Bool) → (if b then true else false) ≡ b
if_self true = refl
if_self false = refl

module _ (engine : Engine) where
  open engine use {Float}

  -- The option is neither `zipCode` nor `date`, whose tests depend on earlier calls.
  abbrev pub IsStateless : Rule Float → Type 0
  IsStateless rule =
      (text_eq rule.option (codes "zipCode") ≡ false) × (text_eq rule.option (codes "date") ≡ false)

  -- The errors of the rules that fail, in order.
  unfoldable pub errors_of : (Rule Float → Bool) → List (Rule Float) → List Text
  errors_of fails [] = []
  errors_of fails (rule ∷ rules) =
      if fails rule then rule.error ∷ errors_of fails rules else errors_of fails rules

  abbrev pub is_nil : List Text → Bool
  is_nil [] = true
  is_nil (x ∷ xs) = false

  -- `fails` is what the test of each rule gives, none of them throws, and none depends on the past.
  abbrev pub HaveVerdicts : Document → (Rule Float → Bool) → List (Rule Float) → Type 0
  HaveVerdicts document fails rules =
      All (λ rule. IsStateless rule × (rule_fails engine document rule ≡ ok (fails rule))) rules

  run_rule-stateless :
      (document : Document) (rule : Rule Float) (form : Validate Float)
      → IsStateless rule
      → run_rule engine document rule form ≡ (rule_fails engine document rule, form)
  unfolding run_rule
  run_rule-stateless document rule form (z, d) = rw (z, d)

  pushed_form :
      (rule : Rule Float) (errors : List Text) (form : Validate Float)
      → record form {
        error_array = (form.error_array ++ rule.error ∷ []) ++ errors;
        e = if is_nil errors then false else false;
      }
        ≡ record form { error_array = form.error_array ++ rule.error ∷ errors; e = false }
  pushed_form rule errors form =
      ground (arith, append_assoc form.error_array (rule.error ∷ []) errors)

  abbrev answer : List Text → Result (Bool × Report)
  answer errors =
      if is_nil errors then ok (true, silent) else ok (false, alert (message line_break errors))

  shown :
      (errors : List Text)
      → All (IsFree b',') errors
      → All (IsFree 10) errors
      → ((errors ≡ []) × (answer errors ≡ ok (true, silent)))
        ⊎ ((text : Text) × (answer errors ≡ ok (false, alert text)) × (split 10 text ≡ errors))
  shown [] c l = inl (refl, refl)
  shown (x ∷ xs) c l = inr (
    message line_break (x ∷ xs),
    refl,
    ap (split 10) (replace_all-join b',' line_break x xs c) ∙ split-join 10 x xs l,
  )

  -- The form with more errors.
  abbrev with_errors : List Text → Validate Float → Validate Float
  with_errors errors form = record form {
    error_array = form.error_array ++ errors;
    e = if is_nil errors then form.e else false;
  }

  -- The loop appends the errors of the first rules to those that are there, and goes on.
  check_rules-append :
      (document : Document) (fails : Rule Float → Bool) (rules rest : List (Rule Float))
      (form : Validate Float)
      → HaveVerdicts document fails rules
      → check_rules engine document (rules ++ rest) form
        ≡ check_rules engine document rest (with_errors (errors_of fails rules) form)
  unfolding check_rules errors_of
  check_rules-append document fails [] rest form h = rw append-nil
  check_rules-append document fails (rule ∷ rules) rest form ((s, v), h) =
      rw (run_rule-stateless document rule form s, v)
        (elim (Bool-cases (fails rule)) [
          | inl e ↦ rw e (
              check_rules-append document fails rules rest (push_error engine rule form) h
              ∙ ap (check_rules engine document rest)
                  (pushed_form rule (errors_of fails rules) form))
          | inr e ↦ rw e (check_rules-append document fails rules rest form h)
        ])

  check_rules-errors_of :
      (document : Document) (fails : Rule Float → Bool) (rules : List (Rule Float))
      (form : Validate Float)
      → HaveVerdicts document fails rules
      → check_rules engine document rules form ≡ (ok tt, with_errors (errors_of fails rules) form)
  unfolding check_rules
  check_rules-errors_of document fails rules form h =
      ap (λ l. check_rules engine document l form) (sym (append-nil rules))
      ∙ check_rules-append document fails rules [] form h

  -- If no test throws and none depends on earlier calls, `check` collects the errors of the rules
  -- that fail, in the order of the rules, whatever the object held before, and sets `e` to whether
  -- there are none.
  pub check-errors_of :
      (document : Document) (fails : Rule Float → Bool) (form : Validate Float)
      → HaveVerdicts document fails form.rules_array
      → check engine document form ≡ (
        ok tt,
        record form {
          error_array = errors_of fails form.rules_array;
          e = is_nil (errors_of fails form.rules_array);
        },
      )
  unfolding check
  check-errors_of document fails form h =
      check_rules-errors_of document fails form.rules_array _ h
      ∙ ap (λ b. (ok tt, record form { error_array = errors_of fails form.rules_array; e = b }))
          (if_self _)

  -- If no test of the rules throws or depends on earlier calls, and no error holds a comma or a line
  -- break, `Apply` without an element answers true and shows nothing if no rule fails, and otherwise
  -- answers false with a dialog whose lines are the errors of the rules that fail, in order.
  pub apply-errors_of :
      (document : Document) (fails : Rule Float → Bool) (form : Validate Float)
      → HaveVerdicts document fails form.rules_array
      → All (IsFree b',') (errors_of fails form.rules_array)
      → All (IsFree 10) (errors_of fails form.rules_array)
      → ((errors_of fails form.rules_array ≡ [])
          × ((apply engine document none form).0 ≡ ok (true, silent)))
        ⊎ ((text : Text) × ((apply engine document none form).0 ≡ ok (false, alert text))
            × (split 10 text ≡ errors_of fails form.rules_array))
  unfolding apply
  apply-errors_of document fails form h commas lines =
      rw (check-errors_of document fails form h)
        (shown (errors_of fails form.rules_array) commas lines)

  -- If the rules are some whose tests neither throw nor depend on earlier calls, one whose test throws
  -- and depends on none, and any others: `Apply` throws what this test throws, whatever element it is
  -- given, and the object is left with the errors of the rules before, and those only.
  pub apply-throws :
      (document : Document) (el : Option Text) (fails : Rule Float → Bool) (f : Failure)
      (rules : List (Rule Float)) (rule : Rule Float) (rest : List (Rule Float))
      (form : Validate Float)
      → form.rules_array ≡ rules ++ rule ∷ rest
      → HaveVerdicts document fails rules
      → IsStateless rule
      → rule_fails engine document rule ≡ throws f
      → apply engine document el form ≡ (
        throws f,
        record form { error_array = errors_of fails rules; e = is_nil (errors_of fails rules) },
      )
  unfolding apply check check_rules
  apply-throws document el fails f rules rule rest form all h stateless failed =
      let begun : Validate Float = record form { error_array = []; e = true } in
      let last : Validate Float = with_errors (errors_of fails rules) begun in
      let ended : check_rules engine document (rule ∷ rest) last ≡ (throws f, last) =
        rw (run_rule-stateless document rule last stateless, failed) refl in
      ap (λ l. finish engine document el (check_rules engine document l begun)) all
      ∙ (ap (finish engine document el)
            (check_rules-append document fails rules (rule ∷ rest) begun h ∙ ended)
          ∙ ap (λ b. (throws f, record form { error_array = errors_of fails rules; e = b }))
              (if_self (is_nil (errors_of fails rules))))
