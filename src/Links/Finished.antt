-- ===== src/Links/Finished.antt =====
-- When the check of a link is over.
use Prim.Native.Nat.{ℕ, suc, ◌≤◌}
use mathlib.Core.Path.{◌≡◌, refl, sym, ap, subst, ◌∙◌}
use mathlib.Core.Logic.{◌⊎◌, inl, inr}
use mathlib.Core.Bool.{Bool, true, false}
use mathlib.Core.Option.{some}
use mathlib.Core.List.{List, [], ◌∷◌, ◌++◌}
use native.Mathlib.Omega.{arith}
use inroa.Base.{Text, Bool-cases}
use inroa.Links.{
  Phase, unread, query, internal, finished, Check, is_swf, results, no_query, Event, load, success,
  fail, internal_success, internal_fail, on_resultado, on_event, with_url, step, run_events,
}

-- Whether an event is what is awaited.
abbrev pub IsAnswer : Phase → Event → Type 0
IsAnswer unread load = Unit
IsAnswer query (success yql) = Unit
IsAnswer query (fail status) = Unit
IsAnswer internal (internal_success found) = Unit
IsAnswer internal internal_fail = Unit
IsAnswer _ _ = ⊥

-- The phases in their order.
abbrev rank : Phase → ℕ
rank unread = 0
rank query = 1
rank internal = 2
rank finished = 3

rank-finished : (p : Phase) → 3 ≤ rank p → p ≡ finished
rank-finished unread h = absurd (omega arith)
rank-finished query h = absurd (omega arith)
rank-finished internal h = absurd (omega arith)
rank-finished finished h = refl

rank-cases : (p now : Phase) → rank p ≤ rank now → (now ≡ p) ⊎ (suc (rank p) ≤ rank now)
rank-cases unread unread h = inl refl
rank-cases query query h = inl refl
rank-cases internal internal h = inl refl
rank-cases finished now h = inl (rank-finished now h)
rank-cases _ _ h = ground arith

module _ (root_url : Text) where
  resultado-finished :
      (url : Text) (found : Bool) (check : Check)
      → (on_resultado root_url url found check).phase ≡ finished
  unfolding on_resultado
  resultado-finished url true check = refl
  resultado-finished url false check = elim (Bool-cases (is_swf url)) [
    | inl swf ↦ rw swf refl
    | inr other ↦ rw other refl
  ]

  -- What is awaited ends the phase.
  on_event-answer :
      (url : Text) (phase : Phase) (event : Event) (check : Check)
      → IsAnswer phase event
      → suc (rank phase) ≤ rank (on_event root_url url phase event check).phase
  on_event-answer url unread load check h = omega arith
  on_event-answer url query (success (results true)) check h = omega arith
  on_event-answer url query (success (results false)) check h = omega arith
  on_event-answer url query (success no_query) check h = omega arith
  on_event-answer url query (fail status) check h = omega arith
  on_event-answer url internal (internal_success found) check h =
      rw (resultado-finished url found check) (omega arith)
  on_event-answer url internal internal_fail check h = omega arith
  on_event-answer url _ _ check h = absurd h

  -- No event takes the check back.
  on_event-later :
      (url : Text) (phase : Phase) (event : Event) (check : Check)
      → check.phase ≡ phase
      → rank phase ≤ rank (on_event root_url url phase event check).phase
  on_event-later url unread load check p = omega arith
  on_event-later url query (success (results true)) check p = omega arith
  on_event-later url query (success (results false)) check p = omega arith
  on_event-later url query (success no_query) check p = omega arith
  on_event-later url query (fail status) check p = omega arith
  on_event-later url internal (internal_success found) check p =
      rw (resultado-finished url found check) (omega arith)
  on_event-later url internal internal_fail check p = omega arith
  on_event-later url _ _ check p = rw p (omega arith)

  on_event-url :
      (url : Text) (phase : Phase) (event : Event) (check : Check)
      → (on_event root_url url phase event check).url ≡ check.url
  unfolding on_resultado
  on_event-url url internal (internal_success true) check = refl
  on_event-url url internal (internal_success false) check = elim (Bool-cases (is_swf url)) [
    | inl swf ↦ rw swf refl
    | inr other ↦ rw other refl
  ]
  on_event-url url query (success (results true)) check = refl
  on_event-url url query (success (results false)) check = refl
  on_event-url url query (success no_query) check = refl
  on_event-url url unread load check = refl
  on_event-url url finished load check = refl
  on_event-url url _ _ check = refl

  module _ (c : ℕ) (url : Text) where
    -- The check of this link has come to the phase of this rank, or further.
    record IsPast (n : ℕ) (check : Check) : Type 0 where
      url_fixed : check.url ≡ some (c ∷ url)
      past : n ≤ rank check.phase

    step_lem :
        (event : Event) (check : Check)
        → check.url ≡ some (c ∷ url)
        → step root_url event check ≡ on_event root_url (c ∷ url) check.phase event check
    unfolding step
    step_lem event check e = ap (λ u. with_url root_url u event check) e

    step-IsPast :
        (n : ℕ) (event : Event) (check : Check)
        → IsPast n check
        → IsPast n (step root_url event check)
    step-IsPast n event check p =
        let later = on_event-later (c ∷ url) check.phase event check refl in
        rw (step_lem event check p.url_fixed) record {
          url_fixed = on_event-url (c ∷ url) check.phase event check ∙ p.url_fixed;
          past = omega arith;
        }

    answer-IsPast :
        (phase : Phase) (event : Event) (check : Check)
        → IsAnswer phase event
        → IsPast (rank phase) check
        → IsPast (suc (rank phase)) (step root_url event check)
    answer-IsPast phase event check answer p =
        let later = on_event-later (c ∷ url) check.phase event check refl in
        rw (step_lem event check p.url_fixed) record {
          url_fixed = on_event-url (c ∷ url) check.phase event check ∙ p.url_fixed;
          past = elim (rank-cases phase check.phase p.past) [
            | inl now ↦
                subst
                  (λ ph. suc (rank phase) ≤ rank (on_event root_url (c ∷ url) ph event check).phase)
                  (sym now) (on_event-answer (c ∷ url) phase event check answer)
            | inr beyond ↦ omega arith
          ];
        }

    run_events-IsPast :
        (n : ℕ) (events : List Event) (check : Check)
        → IsPast n check
        → IsPast n (run_events root_url events check)
    unfolding run_events
    run_events-IsPast n [] check p = p
    run_events-IsPast n (event ∷ events) check p =
        run_events-IsPast n events (step root_url event check) (step-IsPast n event check p)

    -- What is awaited comes, after any events.
    through :
        (n : ℕ) (phase : Phase) (before : List Event) (event : Event) (after : List Event)
        (check : Check)
        → IsAnswer phase event
        → IsPast (rank phase) check
        → ((x : Check) → IsPast (suc (rank phase)) x → IsPast n (run_events root_url after x))
        → IsPast n (run_events root_url (before ++ event ∷ after) check)
    unfolding run_events
    through n phase [] event after check answer p then_on =
        then_on (step root_url event check) (answer-IsPast phase event check answer p)
    through n phase (e ∷ before) event after check answer p then_on =
        through n phase before event after (step root_url e check) answer
          (step-IsPast (rank phase) e check p) then_on

    -- A link with an address that is not empty has its check finished after any events among which
    -- the page is loaded, later the service answers or fails, and later the server does, whatever
    -- comes before, between and after these three.
    pub run_events-finished :
        (check : Check) (before between later after : List Event) (first second : Event)
        → check.url ≡ some (c ∷ url)
        → IsAnswer query first
        → IsAnswer internal second
        → (run_events root_url
            (before ++ load ∷ (between ++ first ∷ (later ++ second ∷ after)))
            check).phase
          ≡ finished
    run_events-finished check before between later after first second e h k =
        let over =
          through 3 unread before load _ check tt (record { url_fixed = e; past = omega arith })
            λ x p.
              through 3 query between first _ x h p
                λ y q. through 3 internal later second after y k q (run_events-IsPast 3 after) in
        rank-finished _ over.past
