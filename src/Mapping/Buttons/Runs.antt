-- ===== src/Mapping/Buttons/Runs.antt =====
-- The buttons over all events.
use mathlib.Core.Path.{refl}
use mathlib.Core.Bool.{Bool}
use mathlib.Core.List.{List, [], ◌∷◌}
use inroa.Base.{All, Text}
use inroa.Base.Policy.{Keeps}
use inroa.Update.{Transport}
use inroa.Mapping.{State}
use inroa.Mapping.Handlers.{set_linha}
use inroa.Mapping.Events.{Event, exibe_text_event, set_linha_event, handle, step, run_events}
use inroa.Mapping.Walk.Events.{handle-Keeps}
use inroa.Mapping.Buttons.{OnlyBotao, same-OnlyBotao, botao_policy, botao_policy-Steps}

-- Every event but `exibeText`, which does not enable the button of the edit before.
abbrev pub IsNotExibeText : Event → Type 0
IsNotExibeText (exibe_text_event id_div id_tipo bot) = ⊥
IsNotExibeText _ = Unit

module _ (has : Transport → Bool) (fields_of : Text → List (Text × Text)) where
  event-Keeps :
      (event : Event) → IsNotExibeText event → Keeps botao_policy (handle has fields_of event)
  unfolding set_linha
  event-Keeps (set_linha_event linha) h = record {
    allows = λ s only. same-OnlyBotao s _ refl refl only;
  }
  event-Keeps event h = handle-Keeps botao_policy-Steps has fields_of event h

  -- If no button is disabled but the one of the last edit, that stays so whatever happens, in whatever
  -- order, errors included, as long as `exibeText` is not called.
  pub run_events-OnlyBotao :
      (events : List Event) (s : State)
      → All IsNotExibeText events
      → OnlyBotao s
      → OnlyBotao (run_events has fields_of events s)
  unfolding run_events
  run_events-OnlyBotao [] s h only = only
  run_events-OnlyBotao (event ∷ events) s (h, hs) only =
      run_events-OnlyBotao events (step has fields_of event s) hs
        ((event-Keeps event h).allows s only)
