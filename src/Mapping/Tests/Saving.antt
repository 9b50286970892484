-- ===== src/Mapping/Tests/Saving.antt =====
-- A page with a mapping that is not saved yet, to which another one is added.
use mathlib.Core.Path.{◌≡◌, refl}
use mathlib.Core.Logic.{inl, inr}
use mathlib.Core.Bool.{false}
use mathlib.Core.Option.{some}
use mathlib.Core.List.{List, [], ◌∷◌, ◌++◌}
use native.Mathlib.Omega.{arith}
use inroa.Base.{Text, codes, decimal, if◌then◌else◌, int_text, text_eq}
use inroa.Page.{Element, append_row, find_field, find_id, update_page}
use inroa.Update.{Change, open_ajax, xml_http_request}
use inroa.Mapping.{State, by_id, on_ready_state_change, send, salvar}
use inroa.Mapping.Handlers.{processo, salvar_link}
use inroa.Mapping.Rows.{add_map, adiciona_map, count_up, new_row}
use inroa.Mapping.Events.{Event, adiciona_event, change_event, salvar_novo_event, step, run_events}
use inroa.Mapping.Unsaved.Saving.{salvar_novo-mixed}
use inroa.Mapping.Tests.{all_transports, div, start}

-- What the answers bring: the choice of a destination, and that of an origin.
abbrev select_fields : Text → List (Text × Text)
select_fields html =
    if text_eq html (codes "destinos")
    then (codes "atrbdestino2", codes "30") ∷ []
    else if text_eq html (codes "origens")
    then (codes "atribOrigem", codes "12") ∷ []
    else []

abbrev answer : Text → Change
answer text = record { ready_state = 4; status = 200; response_text = text }

abbrev origem_cell : Element
origem_cell = record (div 1 (codes "result1")) { fields = (codes "atribOrigem", codes "11") ∷ [] }

abbrev link_cell : Element
link_cell = record (div 2 []) { fields = (codes "salvar", []) ∷ [] }

abbrev one_unsaved : State
one_unsaved = record start {
  page = record start.page { rows = (origem_cell ∷ link_cell ∷ []) ∷ [] };
}

abbrev answers : List Event
answers =
    change_event 0 (answer (codes "destinos")) ∷ change_event 1 (answer (codes "origens")) ∷ []

abbrev both : State
both =
    run_events all_transports select_fields (adiciona_event 1 (codes "5") (codes "6") ∷ answers)
      one_unsaved

abbrev new_origem : Element
new_origem = record {
  node = 4;
  id = codes "destino2";
  inner_html = codes "destinos";
  fields = (codes "atrbdestino2", codes "30") ∷ [];
  on_click = false;
}

salvar_novo-mixed_example :
    (step all_transports select_fields (salvar_novo_event 6) both ≡ both)
    × (step all_transports select_fields (salvar_novo_event 2) both ≡ record both {
      requests =
          both.requests
          ++ record {
            target = some 3;
            acao = salvar;
            url = salvar_link (codes "11") (codes "30") [] [] (codes "5") (codes "6");
          }
            ∷ [];
    })
unfolding run_events adiciona_map add_map processo send by_id find_id find_field count_up new_row
    append_row update_page int_text decimal on_ready_state_change open_ajax
salvar_novo-mixed_example =
    salvar_novo-mixed all_transports select_fields 1 (codes "5") (codes "6") (codes "11") []
      link_cell origem_cell one_unsaved xml_http_request answers 6 (codes "30") new_origem refl refl
      (omega arith) refl refl refl refl (inl refl, (inr refl, tt)) refl (omega arith)
