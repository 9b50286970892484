-- ===== src/Mapping/Table/Runs.antt =====
-- The table over all events.
use mathlib.Core.Path.{◌≡◌, refl}
use mathlib.Core.Bool.{Bool}
use mathlib.Core.List.{List, [], ◌∷◌}
use inroa.Base.{All, Text, codes, modify}
use inroa.Base.Policy.{Keeps, >>=-Keeps}
use inroa.Update.{Transport}
use inroa.Mapping.{State}
use inroa.Mapping.Handlers.{exibe_text}
use inroa.Mapping.Events.{Event, exibe_text_event, set_linha_event, handle, step, run_events}
use inroa.Mapping.Walk.{element-Keeps, processo-Keeps}
use inroa.Mapping.Walk.Events.{handle-Keeps}
use inroa.Mapping.Table.Steps.{Follows, table_policy, table_modify, table_policy-Steps}
use inroa.Mapping.Table.{view, Edits}

-- Every event but the call that sets the counter.
abbrev pub IsNotSetLinha : Event → Type 0
IsNotSetLinha (set_linha_event linha) = ⊥
IsNotSetLinha _ = Unit

module _ (has : Transport → Bool) (fields_of : Text → List (Text × Text)) where
  event-Keeps :
      (event : Event) → IsNotSetLinha event → Keeps table_policy (handle has fields_of event)
  unfolding exibe_text
  event-Keeps (exibe_text_event id_div id_tipo bot) h =
      >>=-Keeps (modify _) _ (table_modify _ (λ s. (refl, refl))) λ _.
        >>=-Keeps _ _ (element-Keeps id_div) λ x.
          processo-Keeps table_policy-Steps has id_div [] (codes "text") [] x.inner_html id_tipo
  event-Keeps event h = handle-Keeps table_policy-Steps has fields_of event h

  run_events-Follows :
      (events : List Event) (s : State)
      → All IsNotSetLinha events
      → s.page.table_id ≡ codes "tabela"
      → Follows s (run_events has fields_of events s)
  unfolding run_events
  run_events-Follows [] s h table = table_policy.stays s table
  run_events-Follows (event ∷ events) s (h, hs) table =
      table_policy.trans s (step has fields_of event s) _ ((event-Keeps event h).allows s)
        (run_events-Follows events (step has fields_of event s) hs) table

  -- On a page that has the table, whatever happens in whatever order, answers of the server and
  -- errors included, except a new call of `setLinha`: the ids of the rows and `totals` change only as
  -- the table may be edited, by a row for the next number at the end, which counts up, by a row for a
  -- complementary mapping at the end, which does not count, and by a row that is there less, which
  -- counts down or does not count.
  pub view-run_events :
      (events : List Event) (s : State)
      → All IsNotSetLinha events
      → s.page.table_id ≡ codes "tabela"
      → Edits (view s) (view (run_events has fields_of events s))
  view-run_events events s h table = (run_events-Follows events s h table).edits
