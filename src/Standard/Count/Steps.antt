-- ===== src/Standard/Count/Steps.antt =====
-- The counter and the rows over all events.
use Prim.Native.Nat.{ℕ}
use mathlib.Core.Path.{◌≡◌, refl}
use mathlib.Core.Bool.{Bool, true, false}
use mathlib.Core.Option.{Option, none, some}
use mathlib.Core.List.{List, [], ◌∷◌, ◌++◌}
use inroa.Base.{Text, codes, ◌==◌, get_elem?, All, ◌>>=◌, ◌>>◌, get, modify, done}
use inroa.Page.{all_elements, has_handler, type_in, set_html}
use inroa.Page.Elements.{set_html-KeepsId}
use inroa.Base.Policy.{Keeps, >>=-Keeps, get-Keeps, done-Keeps, if-Keeps}
use inroa.Standard.Table.{view, Edits}
use inroa.Update.{Transport, Change}
use inroa.Standard.{
  Request, State, Acao, acao_exibe_text, acao_exibe_text_atributo, update_padrao, update_atributo,
  deleta_atributo, novo_atributo, element, field, show, processo_ajax, after_response,
  on_ready_state_change,
}
use inroa.Standard.Handlers.{
  set_disabled, cancelar, exibe_text, exibe_text_atributo, salvar_base, salvar_atributo,
  salvar_novo_atributo, confirma_exclusao,
}
use inroa.Standard.Events.{
  Event, handle, step, run_events, exibe_text_event, exibe_text_atributo_event, cancelar_event,
  salvar_base_event, salvar_atributo_event, set_linha_event, adiciona_event, remove_event,
  salvar_novo_event, confirma_event, type_event, change_event,
}
use inroa.Standard.Count.{
  SameOffset, Follows, Follows-SameOffset, table_policy, modify-Keeps, update-Keeps,
  remove_linha-Keeps, processo_ajax-Keeps, element-Keeps, field-Keeps, show-Keeps,
  set_disabled-Keeps, adiciona_atributo-Keeps,
}

-- Every event but the call that sets the counter.
abbrev pub IsNotSetLinha : Event → Type 0
IsNotSetLinha (set_linha_event linha) = ⊥
IsNotSetLinha _ = Unit

module _ (has : Transport → Bool) (fields_of : Text → List (Text × Text)) where
  after_response-Keeps : (request : Request) → Keeps table_policy (after_response request)
  after_response-Keeps request = by_acao request.acao refl
    where
      by_acao : (a : Acao) → request.acao ≡ a → Keeps table_policy (after_response request)
      by_acao deleta_atributo e =
          rw e (>>=-Keeps get _ get-Keeps λ s. remove_linha-Keeps s.linha_apagar)
      by_acao novo_atributo e = rw e (
          >>=-Keeps (element (request.id_div ++ codes "D")) _ (element-Keeps _)
            λ x. show-Keeps (λ _. []) (some x.node) [])
      by_acao acao_exibe_text e = rw e done-Keeps
      by_acao acao_exibe_text_atributo e = rw e done-Keeps
      by_acao update_padrao e = rw e done-Keeps
      by_acao update_atributo e = rw e done-Keeps

  change-Keeps :
      (request : Request) (change : Change)
      → Keeps table_policy (on_ready_state_change fields_of request change)
  unfolding on_ready_state_change
  change-Keeps request change =
      if-Keeps (change.ready_state == 1) _ _ (show-Keeps fields_of request.target _) (
        if-Keeps (change.ready_state == 4) _ _
          (if-Keeps (change.status == 200) _ _
            (>>=-Keeps (show fields_of request.target change.response_text) _
              (show-Keeps fields_of request.target change.response_text)
              λ _. after_response-Keeps request)
            (show-Keeps fields_of request.target _))
          done-Keeps)

  exibe-Keeps :
      (id_div id atributo : Text) (acao : Acao) (bot : ℕ)
      → Keeps table_policy (
          modify (λ s. set_disabled true (record s { botao = some bot }))
          >> (element id_div >>= λ x. processo_ajax has id_div id [] x.inner_html acao atributo))
  exibe-Keeps id_div id atributo acao bot =
      >>=-Keeps (modify _) _ (modify-Keeps _ (λ s. (refl, refl))) λ _.
        >>=-Keeps (element id_div) _ (element-Keeps id_div)
          λ x. processo_ajax-Keeps has id_div id [] x.inner_html acao atributo

  salva-Keeps :
      (id_div id id_input atributo : Text) (acao : Acao)
      → Keeps table_policy (
          field id_input >>= λ f.
          processo_ajax has id_div id f.0 [] acao atributo >> modify (set_disabled false))
  salva-Keeps id_div id id_input atributo acao =
      >>=-Keeps (field id_input) _ (field-Keeps id_input) λ f.
        >>=-Keeps (processo_ajax has id_div id f.0 [] acao atributo) _
          (processo_ajax-Keeps has id_div id f.0 [] acao atributo) λ _. set_disabled-Keeps false

  handle-Keeps :
      (event : Event) → IsNotSetLinha event → Keeps table_policy (handle has fields_of event)
  unfolding exibe_text exibe_text_atributo cancelar salvar_base salvar_atributo salvar_novo_atributo
      confirma_exclusao
  handle-Keeps (exibe_text_event id_div id_padrao atributo bot) h = exibe_text-Keeps
    where
      exibe_text-Keeps : Keeps table_policy (exibe_text has id_div id_padrao atributo bot)
      exibe_text-Keeps = exibe-Keeps id_div id_padrao atributo acao_exibe_text bot
  handle-Keeps (exibe_text_atributo_event id_div id_atributo bot) h = exibe_text_atributo-Keeps
    where
      exibe_text_atributo-Keeps :
          Keeps table_policy (exibe_text_atributo has id_div id_atributo bot)
      exibe_text_atributo-Keeps = exibe-Keeps id_div id_atributo [] acao_exibe_text_atributo bot
  handle-Keeps (cancelar_event id_div valor_anterior) h = cancelar-Keeps
    where
      cancelar-Keeps : Keeps table_policy (cancelar fields_of id_div valor_anterior)
      cancelar-Keeps = >>=-Keeps (element id_div) _ (element-Keeps id_div) λ x.
          >>=-Keeps (modify _) (λ _. modify (set_disabled false))
            (update-Keeps x.node (set_html fields_of valor_anterior)
              (set_html-KeepsId fields_of valor_anterior))
            λ _. set_disabled-Keeps false
  handle-Keeps (salvar_base_event id_div id_padrao id_input atributo) h = salvar_base-Keeps
    where
      salvar_base-Keeps : Keeps table_policy (salvar_base has id_div id_padrao id_input atributo)
      salvar_base-Keeps = salva-Keeps id_div id_padrao id_input atributo update_padrao
  handle-Keeps (salvar_atributo_event id_div id_input id_atributo) h = salvar_atributo-Keeps
    where
      salvar_atributo-Keeps : Keeps table_policy (salvar_atributo has id_div id_input id_atributo)
      salvar_atributo-Keeps = salva-Keeps id_div id_atributo id_input [] update_atributo
  handle-Keeps (set_linha_event linha) h = absurd h
  handle-Keeps (adiciona_event id_padrao) h = adiciona_atributo-Keeps id_padrao
  handle-Keeps (remove_event linha) h = remove_linha-Keeps linha
  handle-Keeps (salvar_novo_event node) h = >>=-Keeps get _ get-Keeps λ s.
      if-Keeps (has_handler node (all_elements s.page)) _ _ salvar_novo_atributo-Keeps done-Keeps
    where
      salvar_novo_atributo-Keeps : Keeps table_policy (salvar_novo_atributo has)
      salvar_novo_atributo-Keeps = >>=-Keeps get _ get-Keeps λ s.
          >>=-Keeps (field s.input_novo_atributo) _ (field-Keeps s.input_novo_atributo)
            λ f. processo_ajax-Keeps has s.id_div_atributo s.padrao_met f.0 [] novo_atributo []
  handle-Keeps (confirma_event answer id_atributo id_resultado linha) h = confirma_exclusao-Keeps
    where
      confirma_exclusao-Keeps :
          Keeps table_policy (confirma_exclusao has answer id_atributo id_resultado linha)
      confirma_exclusao-Keeps =
          if-Keeps answer _ _
            (>>=-Keeps (processo_ajax has id_resultado id_atributo [] [] deleta_atributo []) _
              (processo_ajax-Keeps has id_resultado id_atributo [] [] deleta_atributo [])
              λ _. modify-Keeps _ (λ s. (refl, refl)))
            done-Keeps
  handle-Keeps (type_event node id value) h =
      update-Keeps node (type_in id value) (record { node = λ x. refl; id = λ x. refl })
  handle-Keeps (change_event i change) h =
      >>=-Keeps get _ get-Keeps λ s. of_request (get_elem? s.requests i)
    where
      of_request :
          (o : Option Request)
          → Keeps table_policy (elim o [
            | none ↦ done
            | some request ↦ on_ready_state_change fields_of request change
          ])
      of_request none = done-Keeps
      of_request (some request) = change-Keeps request change

  run_events-Follows :
      (events : List Event) (s : State)
      → All IsNotSetLinha events
      → s.page.table_id ≡ codes "tabela"
      → Follows s (run_events has fields_of events s)
  unfolding run_events
  run_events-Follows [] s h table = table_policy.stays s table
  run_events-Follows (event ∷ events) s (h, hs) table =
      table_policy.trans s (step has fields_of event s) _ ((handle-Keeps event h).allows s)
        (run_events-Follows events (step has fields_of event s) hs) table

  -- On a page that has the table, whatever happens in whatever order, answers of the server and
  -- errors included, except a new call of `setLinha`: the ids of the rows and `linhaJS` change only
  -- as the table may be edited, by a row for the next number at the end, which counts up, and by a
  -- row that is there less, which counts down.
  pub run_events-Edits :
      (events : List Event) (s : State)
      → All IsNotSetLinha events
      → s.page.table_id ≡ codes "tabela"
      → Edits (view s) (view (run_events has fields_of events s))
  run_events-Edits events s h table = (run_events-Follows events s h table).edits

  -- On a page that has the table, whatever happens in whatever order, answers of the server and
  -- errors included, except a new call of `setLinha`: `linhaJS` and the number of the table's rows
  -- grow and shrink by the same amount.
  pub run_events-SameOffset :
      (events : List Event) (s : State)
      → All IsNotSetLinha events
      → s.page.table_id ≡ codes "tabela"
      → SameOffset s (run_events has fields_of events s)
  run_events-SameOffset events s h table = Follows-SameOffset (run_events-Follows events s h table)
