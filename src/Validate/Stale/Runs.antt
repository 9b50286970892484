-- ===== src/Validate/Stale/Runs.antt =====
-- scripts/validatejs.js: any number of calls of `isZipCode` or `isDate`, one after the other.
use mathlib.Core.Path.{◌≡◌, refl, sym, ap, ◌∙◌}
use mathlib.Core.Logic.{inl, inr, ◌≢◌}
use mathlib.Core.Bool.{Bool, false}
use mathlib.Core.Option.{Option, none, some}
use mathlib.Core.List.{List, [], ◌∷◌}
use inroa.Base.{Text, Option-cases}
use inroa.Regex.{Regex}
use inroa.Validate.Engine.{Result, ok, throws, reference_error}
use inroa.Validate.Dates.{
  test_last, assigned, switch_country, is_zip_code, date_reg_exp, format_or_default, is_date,
}

-- The text of a call and its second argument.
abbrev pub Call : Type 0
Call = Text × Option Text

-- A validator that keeps its expression in a variable.
abbrev pub Stateful : Type 0
Stateful = Text → Option Text → Option Regex → Result Bool × Option Regex

abbrev pub switch_format : Option Text → Option Regex
switch_format format = date_reg_exp (format_or_default format)

-- What the variable holds after the calls.
unfoldable pub run_calls : Stateful → Option Regex → List Call → Option Regex
run_calls f last [] = last
run_calls f last (call ∷ calls) = run_calls f (f call.0 call.1 last).1 calls

assigned-none : (now : Option Regex) → assigned now none ≡ now
assigned-none none = refl
assigned-none (some r) = refl

-- What the first call of all answers for an argument, if there is one.
abbrev pub first_answer : Stateful → Text → Option (Option Text) → Result Bool
first_answer f text none = throws reference_error
first_answer f text (some argument) = (f text argument none).0

module _ (switch : Option Text → Option Regex) where
  -- The argument in force after a call: its own if the call has a text and the argument a case.
  abbrev pub in_force : Call → Option (Option Text) → Option (Option Text)
  in_force ([], argument) last = last
  in_force (c ∷ s, argument) last = elim (switch argument) [ none ↦ last | some r ↦ some argument ]

  unfoldable pub last_known : Option (Option Text) → List Call → Option (Option Text)
  last_known last [] = last
  last_known last (call ∷ calls) = last_known (in_force call last) calls

  abbrev expression : Option (Option Text) → Option Regex
  expression none = none
  expression (some argument) = switch argument

  -- What the two validators share.
  abbrev check : Stateful
  check [] argument last = (ok false, last)
  check (c ∷ s) argument last =
      (test_last (assigned (switch argument) last) (c ∷ s), assigned (switch argument) last)

  check-expression :
      (call : Call) (last : Option (Option Text))
      → (check call.0 call.1 (expression last)).1 ≡ expression (in_force call last)
  check-expression ([], argument) last = refl
  check-expression (c ∷ s, argument) last = elim (Option-cases (switch argument)) [
    | inl unknown ↦ rw (unknown, in_force) refl
    | inr (r, known) ↦ rw (known, in_force, known) refl
  ]

  -- A validator that does what `check` does answers for the argument in force.
  check-in_force :
      (call : Call) (last : Option (Option Text))
      → call.0 ≢ []
      → (check call.0 call.1 (expression last)).0
        ≡ test_last (expression (in_force call last)) call.0
  check-in_force ([], argument) last h = absurd (h refl)
  check-in_force (c ∷ s, argument) last h =
      ap (λ e. test_last e (c ∷ s)) (check-expression (c ∷ s, argument) last)

  module _ (f : Stateful)
      (same : (text : Text) (argument : Option Text) (last : Option Regex)
        → f text argument last ≡ check text argument last) where
    run_calls-expression :
        (last : Option (Option Text)) (calls : List Call)
        → run_calls f (expression last) calls ≡ expression (last_known last calls)
    unfolding run_calls last_known
    run_calls-expression last [] = refl
    run_calls-expression last (call ∷ calls) =
        ap (λ r. run_calls f r calls)
          (ap (λ p. p.1) (same call.0 call.1 (expression last)) ∙ check-expression call last)
        ∙ run_calls-expression (in_force call last) calls

    first_answer-expression :
        (text : Text) (known : Option (Option Text))
        → text ≢ []
        → test_last (expression known) text ≡ first_answer f text known
    first_answer-expression [] known h = absurd (h refl)
    first_answer-expression (c ∷ s) none h = refl
    first_answer-expression (c ∷ s) (some argument) h =
        ap (λ r. test_last r (c ∷ s)) (sym (assigned-none (switch argument)))
        ∙ ap (λ p. p.0) (sym (same (c ∷ s) argument none))

    answer-in_force :
        (calls : List Call) (text : Text) (argument : Option Text)
        → text ≢ []
        → (f text argument (run_calls f none calls)).0
          ≡ first_answer f text (in_force (text, argument) (last_known none calls))
    answer-in_force calls text argument h =
        ap (λ r. (f text argument r).0) (run_calls-expression none calls)
        ∙ ap (λ p. p.0) (same text argument (expression (last_known none calls)))
        ∙ check-in_force (text, argument) (last_known none calls) h
        ∙ first_answer-expression text (in_force (text, argument) (last_known none calls)) h

-- Whatever was checked before, in whatever order, isZipCode and isDate answer for a text that is not
-- empty what their first call of all answers for the argument of the last call, this one included,
-- that had a text and an argument with a case; if there is no such call, they throw. isDate takes an
-- absent format for one with a case, isZipCode an absent country for one without.
pub run_calls-stale :
    (calls : List Call) (text : Text) (argument : Option Text)
    → text ≢ []
    → ((is_zip_code text argument (run_calls is_zip_code none calls)).0
        ≡ first_answer is_zip_code text
            (in_force switch_country (text, argument) (last_known switch_country none calls)))
      × ((is_date text argument (run_calls is_date none calls)).0
          ≡ first_answer is_date text
              (in_force switch_format (text, argument) (last_known switch_format none calls)))
unfolding is_zip_code is_date
run_calls-stale calls text argument h = (
  answer-in_force switch_country is_zip_code (λ t a l. elim t [ [] ↦ refl | c ∷ s ↦ refl ]) calls
      text argument h,
  answer-in_force switch_format is_date (λ t a l. elim t [ [] ↦ refl | c ∷ s ↦ refl ]) calls text
      argument h,
)
