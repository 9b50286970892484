-- ===== src/Standard/Events.antt =====
-- The events that reach the page, in any order: what the user does, and the changes of requests.
use Prim.Native.Nat.{ℕ}
use mathlib.Core.Path.{◌≡◌, refl}
use mathlib.Core.Bool.{Bool}
use mathlib.Core.Option.{none, some}
use mathlib.Core.List.{List, [], ◌∷◌, ◌++◌}
use inroa.Base.{Text, codes, if◌then◌else◌, get_elem?, ◌>>=◌, get, modify, done}
use inroa.Page.{type_in, has_handler, all_elements, update_page}
use inroa.Update.{Transport, Change}
use inroa.Standard.{State, Run, remove_linha, on_ready_state_change}
use inroa.Standard.Handlers.{
  cancelar, set_linha, adiciona_atributo, exibe_text, exibe_text_atributo, salvar_base,
  salvar_atributo, salvar_novo_atributo, confirma_exclusao,
}

-- What happens to the page: a call by one of its links and buttons, a value that the user types, and
-- a change of the request with a number.
pub data Event : Type 0 where
  exibe_text_event : Text → Text → Text → ℕ → Event
  exibe_text_atributo_event : Text → Text → ℕ → Event
  cancelar_event : Text → Text → Event
  salvar_base_event : Text → Text → Text → Text → Event
  salvar_atributo_event : Text → Text → Text → Event
  set_linha_event : ℕ → Event
  adiciona_event : Text → Event
  remove_event : ℕ → Event
  salvar_novo_event : ℕ → Event
  confirma_event : Bool → Text → Text → ℕ → Event
  type_event : ℕ → Text → Text → Event
  change_event : ℕ → Change → Event

module _ (has : Transport → Bool) (fields_of : Text → List (Text × Text)) where
  abbrev pub handle : Event → Run Unit
  handle (exibe_text_event id_div id_padrao atributo bot) =
      exibe_text has id_div id_padrao atributo bot
  handle (exibe_text_atributo_event id_div id_atributo bot) =
      exibe_text_atributo has id_div id_atributo bot
  handle (cancelar_event id_div valor_anterior) = cancelar fields_of id_div valor_anterior
  handle (salvar_base_event id_div id_padrao id_input atributo) =
      salvar_base has id_div id_padrao id_input atributo
  handle (salvar_atributo_event id_div id_input id_atributo) =
      salvar_atributo has id_div id_input id_atributo
  handle (set_linha_event linha) = set_linha linha
  handle (adiciona_event id_padrao) = adiciona_atributo id_padrao
  handle (remove_event linha) = remove_linha (codes "tabela") linha
  handle (salvar_novo_event node) = do
    s ← get
    if has_handler node (all_elements s.page) then salvar_novo_atributo has else done
  handle (confirma_event answer id_atributo id_resultado linha) =
      confirma_exclusao has answer id_atributo id_resultado linha
  handle (type_event node id value) =
      modify λ s. record s { page = update_page node (type_in id value) s.page }
  handle (change_event i change) = do
    s ← get
    elim (get_elem? s.requests i) [
      | none ↦ done
      | some request ↦ on_ready_state_change fields_of request change
    ]

  -- An error that a handler throws is reported by the browser, and the page goes on.
  abbrev pub step : Event → State → State
  step event s = (handle event s).1

  unfoldable pub run_events : List Event → State → State
  run_events [] s = s
  run_events (event ∷ events) s = run_events events (step event s)

  pub run_events-append :
      (before after : List Event) (s : State)
      → run_events (before ++ after) s ≡ run_events after (run_events before s)
  unfolding run_events
  run_events-append [] after s = refl
  run_events-append (event ∷ before) after s = run_events-append before after (step event s)
