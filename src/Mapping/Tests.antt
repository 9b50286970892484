-- ===== src/Mapping/Tests.antt =====
-- A page with two mappings, one of which is edited and one deleted.
mod Saving
mod Editing
use Prim.Native.Nat.{ℕ}
use mathlib.Core.Path.{◌≡◌, refl}
use mathlib.Core.Bool.{Bool, true, false}
use mathlib.Core.Option.{none, some}
use mathlib.Core.List.{List, [], ◌∷◌, map}
use native.Mathlib.Omega.{arith}
use inroa.Base.{Text, codes, pos, decrement, parse_int}
use inroa.Page.{Element, Page, update_page, set_html, remove_at, find_field}
use inroa.Update.{Transport, Change, open_ajax, xml_http_request}
use inroa.Mapping.{Request, State, excluir, on_ready_state_change}
use inroa.Mapping.Handlers.{exibe_select}
use inroa.Mapping.Rows.{adiciona_map}
use inroa.Mapping.Events.{
  Event, exibe_select_event, adiciona_event, composto_event, remove_complementar_event,
  remove_linha_event, run_events,
}
use inroa.Page.Ids.{ids}
use inroa.Mapping.Composto.{remove_complementar-composto}
use inroa.Mapping.Table.{Edits, composto_ids, view}
use inroa.Mapping.Table.Runs.{view-run_events}
use inroa.Mapping.Buttons.{OnlyBotao}
use inroa.Mapping.Buttons.Runs.{run_events-OnlyBotao}
use inroa.Mapping.Answers.{
  SameRows, IsExcluido, on_ready_state_change-SameRows, on_ready_state_change-excluir,
}

abbrev pub all_transports : Transport → Bool
all_transports _ = true

abbrev pub no_fields : Text → List (Text × Text)
no_fields _ = []

abbrev pub div : ℕ → Text → Element
div node id = record { node = node; id = id; inner_html = id; fields = []; on_click = false }

abbrev pub start : State
start = record {
  botao = none;
  linha_composto = 0;
  id_origem = [];
  id_destino = [];
  id_origem_comp = [];
  id_destino_comp = [];
  padrao_met = [];
  tipo_mapeamento = [];
  totals = pos 1;
  is_disabled = λ _. false;
  page = record {
    next_node = 3;
    elements = div 0 (codes "msgerro") ∷ [];
    table_id = codes "tabela";
    rows = (div 1 (codes "result0") ∷ []) ∷ (div 2 (codes "result1") ∷ []) ∷ [];
  };
  requests = [];
  alerts = [];
  reloads = 0;
}

start-OnlyBotao : OnlyBotao start
unfolding OnlyBotao
start-OnlyBotao b h = cc

-- Two edits, the first of which is not cancelled.
abbrev two_edits : List Event
two_edits =
    exibe_select_event (codes "result0") (codes "7") 10
    ∷ exibe_select_event (codes "result1") (codes "8") 11
    ∷ []

run_events-OnlyBotao_example : OnlyBotao (run_events all_transports no_fields two_edits start)
run_events-OnlyBotao_example =
    run_events-OnlyBotao all_transports no_fields two_edits start (tt, (tt, tt)) start-OnlyBotao

two_edits_runs :
    ((run_events all_transports no_fields two_edits start).is_disabled 10 ≡ false)
    × ((run_events all_transports no_fields two_edits start).is_disabled 11 ≡ true)
unfolding run_events exibe_select
two_edits_runs = (refl, refl)

-- A new row gets its two selects by requests.
adiciona_map_runs :
    map Request.target
      (run_events all_transports no_fields
        (adiciona_event 4 (codes "5") (codes "6") ∷ [])
        start).requests
    ≡ some 4 ∷ some 3 ∷ []
unfolding run_events adiciona_map
adiciona_map_runs = refl

-- A new mapping, a complementary one for the row before it, and a row that is removed.
abbrev table_events : List Event
table_events =
    adiciona_event 4 (codes "5") (codes "6")
    ∷ composto_event 1
    ∷ remove_linha_event (codes "tabela") 0
    ∷ []

view-run_events_example :
    Edits (view start) (view (run_events all_transports no_fields table_events start))
view-run_events_example =
    view-run_events all_transports no_fields table_events start (tt, (tt, (tt, tt))) refl

-- A page with a link to save a mapping.
abbrev unsaved : Element
unsaved = record (div 0 (codes "msgerro")) { fields = (codes "salvar", []) ∷ [] }

abbrev with_salvar : State
with_salvar = record start { page = record start.page { elements = unsaved ∷ [] } }

remove_complementar-composto_example :
    ids
      (run_events all_transports no_fields
        (composto_event 0 ∷ remove_complementar_event ∷ [])
        with_salvar).page
    ≡ (codes "result0" ∷ []) ∷ composto_ids 0 ∷ []
unfolding open_ajax find_field remove_at
remove_complementar-composto_example =
    remove_complementar-composto all_transports no_fields xml_http_request 0 ([], unsaved)
      with_salvar refl refl refl (omega arith)
