-- ===== src/Tags/Events.antt =====
-- Clicks and answers in any order: which terms are never deleted.
use Prim.Native.Nat.{ℕ}
use mathlib.Core.Path.{◌≡◌, refl, sym, ap, subst, ◌∙◌}
use mathlib.Core.Logic.{inl, inr}
use mathlib.Core.Bool.{Bool, true, false}
use mathlib.Core.Option.{Option, none, some}
use mathlib.Core.List.{List, [], ◌∷◌}
use inroa.Base.{Text, codes, All, Bool-cases, any, keep, not, text_eq, ◌==◌, ==_iff}
use inroa.Tags.{
  Link, Line, Page, click, holds, Resultado, message_of, on_error, on_resultado, on_type, rm,
  rm_line_tag, answer,
}
use inroa.Tags.Answers.{deletar}

-- A click on a link, and the answer to a request or its failure.
pub data Event : Type 0 where
  click_event : Link → Event
  resultado_event : Resultado → Event
  error_event : Event

-- The links that are clicked are those of a single term, out of some.
abbrev pub IsOneOf : List ℕ → Event → Type 0
IsOneOf nodes (click_event link) = (link.label ≡ deletar) × (any (λ n. n == link.node) nodes ≡ true)
IsOneOf nodes (resultado_event resultado) = Unit
IsOneOf nodes error_event = Unit

abbrev IsLast : List ℕ → Option Link → Type 0
IsLast nodes none = Unit
IsLast nodes (some link) = IsOneOf nodes (click_event link)

-- None of the links is in the line.
abbrev pub is_untouched : List ℕ → Line → Bool
is_untouched nodes line = not (any (λ n. holds n line) nodes)

untouched-holds :
    (nodes : List ℕ) (node : ℕ) (line : Line)
    → any (λ n. n == node) nodes ≡ true
    → is_untouched nodes line ≡ true
    → holds node line ≡ false
untouched-holds [] node line h k = cc
untouched-holds (n ∷ nodes) node line h k = elim (Bool-cases (n == node)) [
  | inl same ↦
      let e : n ≡ node = (==_iff n node).0 same in
      elim (Bool-cases (holds n line)) [ inl held ↦ cc (rw held at k) | inr free ↦ rw (← e) free ]
  | inr other ↦ elim (Bool-cases (holds n line)) [
    | inl held ↦ cc (rw held at k)
    | inr free ↦ untouched-holds nodes node line (rw other at h) (rw free at k)
  ]
]

-- Taking out what is not looked for changes nothing of what is.
keep-without :
    {A : Type 0} (p q : A → Bool) (xs : List A)
    → ((x : A) → p x ≡ true → q x ≡ true)
    → keep p (keep q xs) ≡ keep p xs
keep-without p q [] h = refl
keep-without p q (x ∷ xs) h = elim (Bool-cases (q x)) [
  | inl kept ↦ elim (Bool-cases (p x)) [
    | inl yes_p ↦ rw (keep, kept, keep, yes_p) (ap (λ l. x ∷ l) (keep-without p q xs h))
    | inr no_p ↦ rw (keep, kept, keep, no_p) (keep-without p q xs h)
  ]
  | inr out ↦ elim (Bool-cases (p x)) [
    | inl yes_p ↦ let still : q x ≡ true = h x yes_p in cc
    | inr no_p ↦ rw (keep, out, no_p) (keep-without p q xs h)
  ]
]

module _ (unescape : Text → Text) where
  abbrev pub step : Event → Page → Page
  step (click_event link) page = click link page
  step (resultado_event resultado) page = on_resultado unescape resultado page
  step error_event page = on_error page

  unfoldable pub run_events : List Event → Page → Page
  run_events [] page = page
  run_events (event ∷ events) page = run_events events (step event page)

  module _ (nodes : List ℕ) where
    -- What holds of the page all along.
    record IsUntouched (lines : List Line) (page : Page) : Type 0 where
      last : IsLast nodes page.this
      kept : keep (is_untouched nodes) page.lines ≡ keep (is_untouched nodes) lines

    rm_line_tag-kept :
        (link : Link) (page : Page)
        → any (λ n. n == link.node) nodes ≡ true
        → keep (is_untouched nodes) (rm_line_tag link.node page).lines
          ≡ keep (is_untouched nodes) page.lines
    rm_line_tag-kept link page h =
        keep-without (is_untouched nodes) (λ line. not (holds link.node line)) page.lines
          λ line untouched. ap not (untouched-holds nodes link.node line h untouched)

    rm-kept :
        (this : Option Link) (page : Page)
        → IsLast nodes this
        → (keep (is_untouched nodes) (rm this page).lines ≡ keep (is_untouched nodes) page.lines)
          × ((rm this page).this ≡ page.this)
    rm-kept none page last = (refl, refl)
    rm-kept (some link) page (label, one) =
        let named : text_eq link.label deletar ≡ true = ap (λ l. text_eq l deletar) label in
        rw named (rm_line_tag-kept link page one, refl)

    on_type-IsUntouched :
        (lines : List Line) (type message : Text) (page : Page)
        → IsUntouched lines page
        → IsUntouched lines (on_type unescape type message page)
    on_type-IsUntouched lines type message page u =
        elim (Bool-cases (text_eq (unescape type) (codes "error"))) [
          | inl failed ↦ rw failed record { last = u.last; kept = u.kept }
          | inr fine ↦
              let rmed = rm-kept page.this page u.last in
              rw fine
                record { last = subst (IsLast nodes) (sym rmed.1) u.last; kept = rmed.0 ∙ u.kept }
        ]

    answer-IsUntouched :
        (lines : List Line) (type : Option Text) (message : Text) (page : Page)
        → IsUntouched lines page
        → IsUntouched lines (answer unescape type message page)
    unfolding on_error
    answer-IsUntouched lines none message page u = record { last = u.last; kept = u.kept }
    answer-IsUntouched lines (some []) message page u = record { last = u.last; kept = u.kept }
    answer-IsUntouched lines (some (c ∷ type)) message page u =
        on_type-IsUntouched lines (c ∷ type) message page u

    step-IsUntouched :
        (lines : List Line) (event : Event) (page : Page)
        → IsOneOf nodes event
        → IsUntouched lines page
        → IsUntouched lines (step event page)
    unfolding click on_error on_resultado
    step-IsUntouched lines (click_event link) page one u = record { last = one; kept = u.kept }
    step-IsUntouched lines error_event page one u = record { last = u.last; kept = u.kept }
    step-IsUntouched lines (resultado_event resultado) page one u =
        answer-IsUntouched lines resultado.type (message_of resultado) page u

    run_events-IsUntouched :
        (lines : List Line) (events : List Event) (page : Page)
        → All (IsOneOf nodes) events
        → IsUntouched lines page
        → IsUntouched lines (run_events events page)
    unfolding run_events
    run_events-IsUntouched lines [] page one u = u
    run_events-IsUntouched lines (event ∷ events) page (one, ones) u =
        run_events-IsUntouched lines events (step event page) ones
          (step-IsUntouched lines event page one u)

    -- From a page on which no link was clicked, whatever links of single terms are clicked, and
    -- whatever the answers are, in whatever order: the lines in which none of these links is are what
    -- they were, in the same order.
    pub run_events-untouched :
        (events : List Event) (page : Page)
        → All (IsOneOf nodes) events
        → page.this ≡ none
        → keep (is_untouched nodes) (run_events events page).lines
          ≡ keep (is_untouched nodes) page.lines
    run_events-untouched events page ones none_yet =
        (run_events-IsUntouched page.lines events page ones
          (record { last = subst (IsLast nodes) (sym none_yet) tt; kept = refl })).kept
