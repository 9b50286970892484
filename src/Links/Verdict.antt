-- ===== src/Links/Verdict.antt =====
-- What the user learns of a link.
use mathlib.Core.Path.{◌≡◌, refl, ap, ◌∙◌}
use mathlib.Core.Logic.{inl, inr}
use mathlib.Core.Bool.{Bool, true, false}
use mathlib.Core.Option.{Option, none, some}
use mathlib.Core.List.{List, [], ◌∷◌}
use inroa.Base.{Text, Bool-cases}
use inroa.Links.{
  img_true, img_false, Phase, unread, query, internal, finished, Check, is_swf, Yql, results,
  no_query, Event, load, success, fail, internal_success, internal_fail, on_resultado, on_success,
  on_event, with_url, step, run_events,
}

-- The link as the user sees it: still being checked, or with a verdict, which may be that nothing is
-- known.
pub data View : Type 0 where
  checking active broken unknown : View

-- A verdict is given once and stays.
pub data Move : View → View → Type 0 where
  keep : {v : View} → Move v v
  decide : {v : View} → Move checking v

pub data Moves : View → View → Type 0 where
  here : {v : View} → Moves v v
  next : {u v w : View} → Move u v → Moves v w → Moves u w

-- Not finished.
abbrev pub IsOpen : Phase → Type 0
IsOpen finished = ⊥
IsOpen _ = Unit

-- What a check shows: no image before it is finished, and then at most one.
pub data Shows : Check → View → Type 0 where
  waits : {check : Check} → IsOpen check.phase → check.images ≡ [] → Shows check checking
  is_active :
      {check : Check} → check.phase ≡ finished → check.images ≡ img_true ∷ [] → Shows check active
  is_broken :
      {check : Check} → check.phase ≡ finished → check.images ≡ img_false ∷ [] → Shows check broken
  is_unknown : {check : Check} → check.phase ≡ finished → check.images ≡ [] → Shows check unknown

-- The check goes on from a view by a move.
abbrev pub Refines : View → Check → Type 0
Refines v check = (w : View) × Move v w × Shows check w

module _ (root_url : Text) where
  resultado-Refines :
      (url : Text) (found : Bool) (check : Check)
      → check.images ≡ []
      → Refines checking (on_resultado root_url url found check)
  unfolding on_resultado
  resultado-Refines url true check e = (active, decide, is_active refl (rw e refl))
  resultado-Refines url false check e = elim (Bool-cases (is_swf url)) [
    | inl swf ↦ rw swf (unknown, decide, is_unknown refl e)
    | inr other ↦ rw other (broken, decide, is_broken refl (rw e refl))
  ]

  success-Refines :
      (url : Text) (yql : Yql) (check : Check)
      → check.images ≡ []
      → Refines checking (on_success root_url url yql check)
  success-Refines url (results true) check e = (active, decide, is_active refl (rw e refl))
  success-Refines url (results false) check e = (checking, keep, waits tt e)
  success-Refines url no_query check e = (unknown, decide, is_unknown refl e)

  on_event-Refines :
      (url : Text) (phase : Phase) (event : Event) (check : Check)
      → check.phase ≡ phase
      → IsOpen phase
      → check.images ≡ []
      → Refines checking (on_event root_url url phase event check)
  on_event-Refines url unread load check p o e = (checking, keep, waits tt e)
  on_event-Refines url unread (success yql) check p o e = (checking, keep, waits (rw p tt) e)
  on_event-Refines url unread (fail status) check p o e = (checking, keep, waits (rw p tt) e)
  on_event-Refines url unread (internal_success found) check p o e =
      (checking, keep, waits (rw p tt) e)
  on_event-Refines url unread internal_fail check p o e = (checking, keep, waits (rw p tt) e)
  on_event-Refines url query load check p o e = (checking, keep, waits (rw p tt) e)
  on_event-Refines url query (success yql) check p o e = success-Refines url yql check e
  on_event-Refines url query (fail status) check p o e = (checking, keep, waits tt e)
  on_event-Refines url query (internal_success found) check p o e =
      (checking, keep, waits (rw p tt) e)
  on_event-Refines url query internal_fail check p o e = (checking, keep, waits (rw p tt) e)
  on_event-Refines url internal load check p o e = (checking, keep, waits (rw p tt) e)
  on_event-Refines url internal (success yql) check p o e = (checking, keep, waits (rw p tt) e)
  on_event-Refines url internal (fail status) check p o e = (checking, keep, waits (rw p tt) e)
  on_event-Refines url internal (internal_success found) check p o e =
      resultado-Refines url found check e
  on_event-Refines url internal internal_fail check p o e = (unknown, decide, is_unknown refl e)
  on_event-Refines url finished event check p o e = absurd o

  on_event-finished :
      (url : Text) (event : Event) (check : Check)
      → on_event root_url url finished event check ≡ check
  on_event-finished url load check = refl
  on_event-finished url (success yql) check = refl
  on_event-finished url (fail status) check = refl
  on_event-finished url (internal_success found) check = refl
  on_event-finished url internal_fail check = refl

  with_url-Refines :
      (url : Option Text) (event : Event) (check : Check)
      → IsOpen check.phase
      → check.images ≡ []
      → Refines checking (with_url root_url url event check)
  with_url-Refines none event check o e = (checking, keep, waits o e)
  with_url-Refines (some []) event check o e = (checking, keep, waits o e)
  with_url-Refines (some (c ∷ url)) event check o e =
      on_event-Refines (c ∷ url) check.phase event check refl o e

  pub with_url-finished :
      (url : Option Text) (event : Event) (check : Check)
      → check.phase ≡ finished
      → with_url root_url url event check ≡ check
  with_url-finished none event check p = refl
  with_url-finished (some []) event check p = refl
  with_url-finished (some (c ∷ url)) event check p =
      ap (λ ph. on_event root_url (c ∷ url) ph event check) p
      ∙ on_event-finished (c ∷ url) event check

  stays :
      (event : Event) (check : Check) (v : View)
      → check.phase ≡ finished
      → Shows check v
      → Refines v (step root_url event check)
  unfolding step
  stays event check v p h = (v, keep, rw (with_url-finished check.url event check p) h)

  step-Refines :
      (event : Event) (check : Check) (v : View)
      → Shows check v
      → Refines v (step root_url event check)
  unfolding step
  step-Refines event check checking (waits o e) = with_url-Refines check.url event check o e
  step-Refines event check active (is_active p e) = stays event check active p (is_active p e)
  step-Refines event check broken (is_broken p e) = stays event check broken p (is_broken p e)
  step-Refines event check unknown (is_unknown p e) = stays event check unknown p (is_unknown p e)

  -- From a check that shows one of the views, whatever answers come, in whatever order, the user
  -- sees a link go from being checked to one verdict that stays: active, broken or unknown; there
  -- is at most one image behind it, and none before the check is over.
  pub run_events-Moves :
      (events : List Event) (check : Check) (v : View)
      → Shows check v
      → (w : View) × Moves v w × Shows (run_events root_url events check) w
  unfolding run_events
  run_events-Moves [] check v h = (v, here, h)
  run_events-Moves (event ∷ events) check v h =
      let (u, move, h') = step-Refines event check v h in
      let (w, moves, h'') = run_events-Moves events (step root_url event check) u h' in
      (w, next move moves, h'')
