-- ===== src/Mapping/Walk/Events.antt =====
-- The calls and events that a policy allows if it allows their steps.
use Prim.Native.Nat.{ℕ}
use mathlib.Core.Path.{refl}
use mathlib.Core.Bool.{Bool, false}
use mathlib.Core.Option.{Option, none, some}
use mathlib.Core.List.{List, [], ◌∷◌, ◌++◌}
use inroa.Base.{Text, codes, decimal, int_text, get_elem?, ok, ◌>>=◌, get, modify, done}
use inroa.Base.Policy.{Policy, Keeps, >>=-Keeps, get-Keeps, done-Keeps, if-Keeps}
use inroa.Page.{all_elements, find_field, has_handler, set_html, type_in}
use inroa.Page.Elements.{set_html-KeepsId}
use inroa.Update.{Transport}
use inroa.Mapping.{
  Request, State, mostrar, salvar, excluir, element, field, delete_linha, remove_item,
  on_ready_state_change,
}
use inroa.Mapping.Handlers.{
  salvar_link, excluir_link, set_disabled, cancelar, novo_tipos, exibe_select, salvar_base,
  processo, apagar_mapeamento_branco, salvar_ajax, complementares, salvar_novo_mapeamento,
  excluir_ajax, confirma_exclusao, preenche_descricao_tm,
}
use inroa.Mapping.Rows.{
  set_linha_composto, set_variables, set_complementares, insert_row, hook, add_map, adiciona_map,
  set_mapeamento_composto, remove_complementar, composto_row,
}
use inroa.Mapping.Events.{
  Event, exibe_select_event, exibe_text_event, cancelar_event, salvar_base_event, novo_tipos_event,
  apagar_branco_event, set_linha_event, adiciona_event, composto_event, remove_complementar_event,
  remove_item_event, remove_linha_event, salvar_novo_event, confirma_event, preenche_event,
  type_event, change_event, handle,
}
use inroa.Mapping.Walk.{
  Steps, element-Keeps, field-Keeps, hook-Keeps, send-Keeps, processo-Keeps, change-Keeps,
}

-- Every event but the calls of `exibeText` and `setLinha`.
abbrev pub IsOther : Event → Type 0
IsOther (exibe_text_event id_div id_tipo bot) = ⊥
IsOther (set_linha_event linha) = ⊥
IsOther _ = Unit

complementares-Keeps :
    {p : Policy State} (has : Transport → Bool) (input_origem input_destino : Text)
    → Keeps p (complementares has input_origem input_destino)
complementares-Keeps {p} has [] input_destino = record { allows = p.stays }
complementares-Keeps {p} has (c ∷ input_origem) input_destino = record { allows = read.allows }
  where
    read :
        Keeps {A = Text × Text} p
          (field (c ∷ input_origem) >>= λ o. field input_destino >>= λ d. λ t. (ok (o.0, d.0), t))
    read = >>=-Keeps (field (c ∷ input_origem)) _ (field-Keeps (c ∷ input_origem)) λ o.
        >>=-Keeps (field input_destino) _ (field-Keeps input_destino)
          λ d. record { allows = p.stays }

module _ {p : Policy State} (steps : Steps p) (has : Transport → Bool)
    (fields_of : Text → List (Text × Text)) where
  exibe_select-Keeps :
      (id_div id_map : Text) (bot : ℕ) → Keeps p (exibe_select has id_div id_map bot)
  unfolding exibe_select
  exibe_select-Keeps id_div id_map bot = >>=-Keeps (modify _) _ (steps.exibe bot) λ _.
      >>=-Keeps (element id_div) _ (element-Keeps id_div)
        λ x. processo-Keeps steps has id_div id_map (codes "comboBox") [] x.inner_html []

  salvar_base-Keeps :
      (id_div id_map input id_tipo : Text) → Keeps p (salvar_base has id_div id_map input id_tipo)
  unfolding salvar_base
  salvar_base-Keeps id_div id_map input id_tipo = >>=-Keeps (field input) _ (field-Keeps input) λ f.
      >>=-Keeps (processo has id_div id_map (codes "salvar") f.0 [] id_tipo) _
        (processo-Keeps steps has id_div id_map (codes "salvar") f.0 [] id_tipo) λ _. steps.enable

  add_map-Keeps :
      (id_div_origem id_div_destino padrao tipo_map : Text)
      → Keeps p (add_map has id_div_origem id_div_destino padrao tipo_map)
  unfolding add_map
  add_map-Keeps id_div_origem id_div_destino padrao tipo_map =
      >>=-Keeps (processo has id_div_destino (codes "0") (codes "comboBox") [] [] []) _
        (processo-Keeps steps has id_div_destino (codes "0") (codes "comboBox") [] [] [])
        λ _.
          >>=-Keeps (processo has id_div_origem padrao (codes "comboOrigem") [] [] []) _
            (processo-Keeps steps has id_div_origem padrao (codes "comboOrigem") [] [] [])
            λ _. >>=-Keeps get _ get-Keeps λ s.
              >>=-Keeps (modify (set_variables id_div_destino padrao tipo_map))
                (λ _. hook (find_field (codes "salvar") (all_elements s.page)))
                (steps.apart (set_variables id_div_destino padrao tipo_map)
                  (λ t. (refl, refl, refl, refl)))
                λ _. hook-Keeps steps (find_field (codes "salvar") (all_elements s.page))

  adiciona_map-Keeps :
      (linha_real : ℕ) (id_padrao tipo_map : Text)
      → Keeps p (adiciona_map has linha_real id_padrao tipo_map)
  unfolding adiciona_map
  adiciona_map-Keeps linha_real id_padrao tipo_map = steps.insert_new linha_real _ λ s.
      add_map-Keeps (codes "result" ++ int_text s.totals) (codes "destino" ++ int_text s.totals)
        id_padrao tipo_map

  -- The request for a cell of a complementary mapping.
  campo-Keeps : (id : Text) (acao : Text) → Keeps p (processo has id (codes "0") acao [] [] [])
  campo-Keeps id acao = processo-Keeps steps has id (codes "0") acao [] [] []

  composto-Keeps : (linha : ℕ) → Keeps p (set_mapeamento_composto has linha)
  unfolding set_mapeamento_composto set_complementares
  composto-Keeps linha =
      >>=-Keeps (modify (set_linha_composto linha)) _
        (steps.apart (set_linha_composto linha) (λ t. (refl, refl, refl, refl)))
        λ _. >>=-Keeps (insert_row (composto_row linha)) _ (steps.insert_composto linha) λ _.
          >>=-Keeps _ _
            (campo-Keeps (codes "resultComplementar" ++ decimal linha) (codes "comboBox"))
            λ _.
              >>=-Keeps _ _
                (campo-Keeps (codes "destinoComplementar" ++ decimal linha) (codes "textComp"))
                λ _. >>=-Keeps get _ get-Keeps λ s.
                  >>=-Keeps (modify (set_complementares linha))
                    (λ _. hook (find_field (codes "salvar") (all_elements s.page)))
                    (steps.apart (set_complementares linha) (λ t. (refl, refl, refl, refl)))
                    λ _. hook-Keeps steps (find_field (codes "salvar") (all_elements s.page))

  salvar_novo-Keeps : Keeps p (salvar_novo_mapeamento has)
  unfolding salvar_novo_mapeamento salvar_ajax
  salvar_novo-Keeps = >>=-Keeps get _ get-Keeps λ s.
      >>=-Keeps (field s.id_origem) _ (field-Keeps s.id_origem) λ o.
        >>=-Keeps (field s.id_destino) _ (field-Keeps s.id_destino) λ d.
          >>=-Keeps (complementares has s.id_origem_comp s.id_destino_comp) _
            (complementares-Keeps has s.id_origem_comp s.id_destino_comp)
            λ c.
              send-Keeps steps has (codes "result" ++ int_text s.totals) salvar
                (salvar_link o.0 d.0 c.0 c.1 s.padrao_met s.tipo_mapeamento)

  pub handle-Keeps : (event : Event) → IsOther event → Keeps p (handle has fields_of event)
  unfolding cancelar novo_tipos apagar_mapeamento_branco excluir_ajax confirma_exclusao
      preenche_descricao_tm remove_item remove_complementar
  handle-Keeps (exibe_select_event id_div id_map bot) h = exibe_select-Keeps id_div id_map bot
  handle-Keeps (exibe_text_event id_div id_tipo bot) h = absurd h
  handle-Keeps (cancelar_event id_div valor_anterior) h =
      >>=-Keeps (element id_div) _ (element-Keeps id_div) λ x.
        >>=-Keeps (modify _) (λ _. modify (set_disabled false))
          (steps.update x.node (set_html fields_of valor_anterior)
            (set_html-KeepsId fields_of valor_anterior))
          λ _. steps.enable
  handle-Keeps (salvar_base_event id_div id_map input id_tipo) h =
      salvar_base-Keeps id_div id_map input id_tipo
  handle-Keeps (novo_tipos_event div) h =
      >>=-Keeps (element div) _ (element-Keeps div)
        λ x. steps.update x.node (set_html (λ _. []) []) (set_html-KeepsId (λ _. []) [])
  handle-Keeps apagar_branco_event h =
      processo-Keeps steps has (codes "msgerro") [] (codes "apagarBranco") [] [] []
  handle-Keeps (set_linha_event linha) h = absurd h
  handle-Keeps (adiciona_event linha_real id_padrao tipo_map) h =
      adiciona_map-Keeps linha_real id_padrao tipo_map
  handle-Keeps (composto_event linha) h = composto-Keeps linha
  handle-Keeps remove_complementar_event h = >>=-Keeps get _ get-Keeps λ s.
      >>=-Keeps (delete_linha (codes "tabela") s.linha_composto) _ (steps.drop s.linha_composto)
        λ _. steps.apart _ (λ t. (refl, refl, refl, refl))
  handle-Keeps (remove_item_event linha) h = steps.drop linha
  handle-Keeps (remove_linha_event nome_tabela linha) h = steps.remove nome_tabela linha
  handle-Keeps (salvar_novo_event node) h =
      >>=-Keeps get _ get-Keeps
        λ s. if-Keeps (has_handler node (all_elements s.page)) _ _ salvar_novo-Keeps done-Keeps
  handle-Keeps (confirma_event answer id tabela_base id_resultado id_tabela linha) h =
      if-Keeps answer _ _
        (send-Keeps steps has id_resultado (excluir id_tabela linha) (excluir_link id tabela_base))
        done-Keeps
  handle-Keeps (preenche_event id id_div) h =
      send-Keeps steps has id_div mostrar (codes "consultadescricao.jsp?id=" ++ id)
  handle-Keeps (type_event node id value) h =
      steps.update node (type_in id value) (record { node = λ x. refl; id = λ x. refl })
  handle-Keeps (change_event i change) h =
      >>=-Keeps get _ get-Keeps λ s. of_request (get_elem? s.requests i)
    where
      of_request :
          (o : Option Request)
          → Keeps p (elim o [
            | none ↦ done
            | some request ↦ on_ready_state_change fields_of request change
          ])
      of_request none = done-Keeps
      of_request (some request) = change-Keeps steps fields_of request change
