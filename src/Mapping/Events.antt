-- ===== src/Mapping/Events.antt =====
-- The events that reach the page, in any order: what the user does, and the changes of requests.
use Prim.Native.Nat.{ℕ}
use mathlib.Core.Path.{◌≡◌, refl}
use mathlib.Core.Bool.{Bool}
use mathlib.Core.Option.{none, some}
use mathlib.Core.List.{List, [], ◌∷◌, ◌++◌}
use inroa.Base.{Text, if◌then◌else◌, get_elem?, ◌>>=◌, get, modify, done}
use inroa.Page.{type_in, has_handler, all_elements, update_page}
use inroa.Update.{Transport, Change}
use inroa.Mapping.{State, Run, remove_item, remove_linha, on_ready_state_change}
use inroa.Mapping.Handlers.{
  cancelar, novo_tipos, set_linha, exibe_select, exibe_text, salvar_base, apagar_mapeamento_branco,
  salvar_novo_mapeamento, confirma_exclusao, preenche_descricao_tm,
}
use inroa.Mapping.Rows.{adiciona_map, set_mapeamento_composto, remove_complementar}

pub data Event : Type 0 where
  exibe_select_event : Text → Text → ℕ → Event
  exibe_text_event : Text → Text → ℕ → Event
  cancelar_event : Text → Text → Event
  salvar_base_event : Text → Text → Text → Text → Event
  novo_tipos_event : Text → Event
  apagar_branco_event : Event
  set_linha_event : ℕ → Event
  adiciona_event : ℕ → Text → Text → Event
  composto_event : ℕ → Event
  remove_complementar_event : Event
  remove_item_event : ℕ → Event
  remove_linha_event : Text → ℕ → Event
  salvar_novo_event : ℕ → Event
  confirma_event : Bool → Text → Text → Text → Text → ℕ → Event
  preenche_event : Text → Text → Event
  type_event : ℕ → Text → Text → Event
  change_event : ℕ → Change → Event

module _ (has : Transport → Bool) (fields_of : Text → List (Text × Text)) where
  abbrev pub handle : Event → Run Unit
  handle (exibe_select_event id_div id_map bot) = exibe_select has id_div id_map bot
  handle (exibe_text_event id_div id_tipo bot) = exibe_text has id_div id_tipo bot
  handle (cancelar_event id_div valor_anterior) = cancelar fields_of id_div valor_anterior
  handle (salvar_base_event id_div id_map input id_tipo) =
      salvar_base has id_div id_map input id_tipo
  handle (novo_tipos_event div) = novo_tipos div
  handle apagar_branco_event = apagar_mapeamento_branco has
  handle (set_linha_event linha) = set_linha linha
  handle (adiciona_event linha_real id_padrao tipo_map) =
      adiciona_map has linha_real id_padrao tipo_map
  handle (composto_event linha) = set_mapeamento_composto has linha
  handle remove_complementar_event = remove_complementar
  handle (remove_item_event linha) = remove_item linha
  handle (remove_linha_event nome_tabela linha) = remove_linha nome_tabela linha
  handle (salvar_novo_event node) = do
    s ← get
    if has_handler node (all_elements s.page) then salvar_novo_mapeamento has else done
  handle (confirma_event answer id tabela_base id_resultado id_tabela linha) =
      confirma_exclusao has answer id tabela_base id_resultado id_tabela linha
  handle (preenche_event id id_div) = preenche_descricao_tm has id id_div
  handle (type_event node id value) =
      modify λ s. record s { page = update_page node (type_in id value) s.page }
  handle (change_event i change) = do
    s ← get
    elim (get_elem? s.requests i) [
      | none ↦ done
      | some request ↦ on_ready_state_change fields_of request change
    ]

  -- An error that a handler throws is reported by the browser, and the page goes on.
  abbrev pub step : Event → State → State
  step event s = (handle event s).1

  unfoldable pub run_events : List Event → State → State
  run_events [] s = s
  run_events (event ∷ events) s = run_events events (step event s)

  pub run_events-append :
      (before after : List Event) (s : State)
      → run_events (before ++ after) s ≡ run_events after (run_events before s)
  unfolding run_events
  run_events-append [] after s = refl
  run_events-append (event ∷ before) after s = run_events-append before after (step event s)
