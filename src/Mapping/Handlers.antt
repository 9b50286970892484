-- ===== src/Mapping/Handlers.antt =====
-- The functions that the pages call, except those that add rows.
use Prim.Native.Nat.{ℕ}
use mathlib.Core.Bool.{Bool, true, false}
use mathlib.Core.Option.{none, some}
use mathlib.Core.List.{List, [], ◌∷◌, ◌++◌}
use inroa.Base.{
  ok, Text, codes, if◌then◌else◌, text_eq, pos, decrement, int_text, ◌>>=◌, ◌>>◌, get, modify, done,
}
use inroa.Page.{assign, update_page, set_html, find_field}
use inroa.Update.{Transport}
use inroa.Mapping.{State, Run, mostrar, salvar, excluir, by_id, element, field, send}

-- `botao.disabled = v`; on the empty text the assignment does nothing.
abbrev pub set_disabled : Bool → State → State
set_disabled v s = elim s.botao [
  | none ↦ s
  | some b ↦ record s { is_disabled = assign b v s.is_disabled }
]

-- The links of the requests.
abbrev pub processo_link : Text → Text → Text → Text → Text → Text → Text
processo_link id_resultado id acao novo_valor valor_anterior id_tipo_mapeamento =
    codes "respostaAjax.jsp?tipo="
    ++ (acao
        ++ (codes "&idMapOuIdPadrao="
            ++ (id
                ++ (codes "&idResultado="
                    ++ (id_resultado
                        ++ (codes "&novo="
                            ++ (novo_valor
                                ++ (codes "&valorAnterior="
                                    ++ (valor_anterior
                                        ++ (codes "&idTipMap=" ++ id_tipo_mapeamento))))))))))

abbrev pub salvar_link : Text → Text → Text → Text → Text → Text → Text
salvar_link origem destino origem_complementar destino_complementar padrao tipo_map =
    codes "salvarBaseAjax.jsp?origem="
    ++ (origem
        ++ (codes "&destino="
            ++ (destino
                ++ (codes "&origemcomplementar="
                    ++ (origem_complementar
                        ++ (codes "&destinocomplementar="
                            ++ (destino_complementar
                                ++ (codes "&padrao="
                                    ++ (padrao ++ (codes "&tipoMap=" ++ tipo_map))))))))))

abbrev pub excluir_link : Text → Text → Text
excluir_link id_mapeamento tabela =
    (if text_eq tabela (codes "padraometadados") then codes "mapeamentos/" else [])
    ++ (codes "deletaBaseAjax.jsp?idmap=" ++ (id_mapeamento ++ (codes "&tabela=" ++ tabela)))

-- `cancelar`
unfoldable pub cancelar : (Text → List (Text × Text)) → Text → Text → Run Unit
unfolding by_id update_page
cancelar fields_of id_div_result valor_anterior = do
  x ← element id_div_result
  modify λ s. record s { page = update_page x.node (set_html fields_of valor_anterior) s.page }
  modify (set_disabled false)

-- `novoTipos`
unfoldable pub novo_tipos : Text → Run Unit
unfolding by_id update_page
novo_tipos div = do
  x ← element div
  modify λ s. record s { page = update_page x.node (set_html (λ _. []) []) s.page }

-- `setLinha`
unfoldable pub set_linha : ℕ → Run Unit
unfolding decrement
set_linha linha = modify λ s. record s { totals = decrement (pos linha) }

module _ (has : Transport → Bool) where
  -- `processo`
  unfoldable pub processo : Text → Text → Text → Text → Text → Text → Run Unit
  unfolding send
  processo id_resultado id acao novo_valor valor_anterior id_tipo_mapeamento =
      send has id_resultado mostrar
        (processo_link id_resultado id acao novo_valor valor_anterior id_tipo_mapeamento)

  -- `exibeSelect`: the button of the edit before is enabled again.
  unfoldable pub exibe_select : Text → Text → ℕ → Run Unit
  unfolding processo by_id
  exibe_select id_div_result id_map bot = do
    modify λ s. set_disabled true (record (set_disabled false s) { botao = some bot })
    x ← element id_div_result
    processo id_div_result id_map (codes "comboBox") [] x.inner_html []

  -- `exibeText`
  unfoldable pub exibe_text : Text → Text → ℕ → Run Unit
  unfolding processo by_id
  exibe_text id_div_result id_tipo_mapeamento bot = do
    modify λ s. set_disabled true (record s { botao = some bot })
    x ← element id_div_result
    processo id_div_result [] (codes "text") [] x.inner_html id_tipo_mapeamento

  -- `salvarBase`
  unfoldable pub salvar_base : Text → Text → Text → Text → Run Unit
  unfolding processo find_field
  salvar_base id_div_resultado id_map input id_tipo_mapeamento = do
    (novo, x) ← field input
    processo id_div_resultado id_map (codes "salvar") novo [] id_tipo_mapeamento
    modify (set_disabled false)

  -- `apagarMapeamentoBranco`
  unfoldable pub apagar_mapeamento_branco : Run Unit
  unfolding processo
  apagar_mapeamento_branco = processo (codes "msgerro") [] (codes "apagarBranco") [] [] []

  -- `salvarAjax`
  unfoldable pub salvar_ajax : Text → Text → Text → Text → Text → Text → Text → Run Unit
  unfolding send
  salvar_ajax id_resultado origem destino origem_complementar destino_complementar padrao tipo_map =
      send has id_resultado salvar
        (salvar_link origem destino origem_complementar destino_complementar padrao tipo_map)

  -- The values of the complementary mapping, if there is one: `!inputOrigemComplementar == ''`.
  abbrev pub complementares : Text → Text → Run (Text × Text)
  complementares [] input_destino s = (ok ([], []), s)
  complementares (c ∷ input_origem) input_destino s =
      (do
        (origem, x) ← field (c ∷ input_origem)
        (destino, y) ← field input_destino
        λ t. (ok (origem, destino), t))
        s

  -- `salvarNovoMapeamento`
  unfoldable pub salvar_novo_mapeamento : Run Unit
  unfolding salvar_ajax find_field int_text
  salvar_novo_mapeamento = do
    s ← get
    (origem, x) ← field s.id_origem
    (destino, y) ← field s.id_destino
    (comp_origem, comp_destino) ← complementares s.id_origem_comp s.id_destino_comp
    salvar_ajax (codes "result" ++ int_text s.totals) origem destino comp_origem comp_destino
        s.padrao_met s.tipo_mapeamento

  -- `excluirAjax`, and `confirmaExclusao` with the user's answer
  unfoldable pub excluir_ajax : Text → Text → Text → Text → ℕ → Run Unit
  unfolding send
  excluir_ajax id_mapeamento tabela id_resultado id_tabela linha =
      send has id_resultado (excluir id_tabela linha) (excluir_link id_mapeamento tabela)

  unfoldable pub confirma_exclusao : Bool → Text → Text → Text → Text → ℕ → Run Unit
  unfolding excluir_ajax
  confirma_exclusao answer id tabela_base id_resultado id_tabela linha =
      if answer then excluir_ajax id tabela_base id_resultado id_tabela linha else done

  -- `preencheDescricaoTM`
  unfoldable pub preenche_descricao_tm : Text → Text → Run Unit
  unfolding send
  preenche_descricao_tm id id_div =
      send has id_div mostrar (codes "consultadescricao.jsp?id=" ++ id)
