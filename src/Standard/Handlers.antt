-- ===== src/Standard/Handlers.antt =====
-- The functions that the pages call.
use Prim.Native.Nat.{ℕ}
use mathlib.Core.Bool.{Bool, true, false}
use mathlib.Core.Option.{none, some}
use mathlib.Core.List.{List, [], ◌∷◌, ◌++◌}
use inroa.Base.{
  Text, codes, if◌then◌else◌, text_eq, pos, increment, decrement, int_text, ◌>>=◌, ◌>>◌, get,
  modify, done, fail,
}
use inroa.Page.{
  assign, set_on_click, Element, update_page, set_html, append_row, find_id, find_field,
}
use inroa.Update.{Transport}
use inroa.Standard.{
  acao_exibe_text, acao_exibe_text_atributo, update_padrao, update_atributo, deleta_atributo,
  novo_atributo, State, Run, element, field, processo_ajax,
}

-- `botao.disabled = v`; on the empty text the assignment does nothing.
abbrev pub set_disabled : Bool → State → State
set_disabled v s = elim s.botao [
  | none ↦ s
  | some b ↦ record s { is_disabled = assign b v s.is_disabled }
]

-- `cancelar`
unfoldable pub cancelar : (Text → List (Text × Text)) → Text → Text → Run Unit
unfolding find_id update_page
cancelar fields_of id_div_result valor_anterior = do
  x ← element id_div_result
  modify λ s. record s { page = update_page x.node (set_html fields_of valor_anterior) s.page }
  modify (set_disabled false)

-- `setLinha`
unfoldable pub set_linha : ℕ → Run Unit
unfolding decrement
set_linha linha = modify λ s. record s { linha_js = decrement (pos linha) }

-- The html of a new row's two cells; the second one's links have the ids `salvar` and `removeLinha`.
abbrev pub first_html : Text → Text
first_html linha =
    codes "<input type='text' name='novoAtributo' id='inputNovo" ++ (linha ++ codes "' />")

abbrev pub second_html : Text
second_html =
    codes
      "<a title='Salvar' id='salvar'> <img src='../imagens/ico24_salvar.gif' border='0' width='24' height='24' alt='Salvar' align='middle'> </a>"
    ++ (10
          ∷ codes
              "                            &nbsp;<a id='removeLinha' title='Remover Linha' onclick='removeLinha(\"tabela\", this.parentNode.parentNode.parentNode.rowIndex);'> <img src='../imagens/ico24_deletar.gif' border='0' width='24' height='24' alt='Excluir' align='middle'> </a>"
        ++ (10 ∷ codes "                            "))

-- The row that `adicionaAtributo` inserts for a value of `linhaJS`.
unfoldable pub new_row : Text → List Element
new_row linha =
    record {
      node = 0;
      id = codes "result" ++ linha;
      inner_html = first_html linha;
      fields = (codes "inputNovo" ++ linha, []) ∷ [];
      on_click = false;
    }
    ∷ record {
      node = 0;
      id = (codes "result" ++ linha) ++ codes "D";
      inner_html = second_html;
      fields = (codes "salvar", []) ∷ (codes "removeLinha", []) ∷ [];
      on_click = false;
    }
    ∷ []

-- `tbl.insertRow(-1)` and the cells; a page without the table throws.
abbrev pub insert_row : Run Unit
insert_row s =
    if text_eq (codes "tabela") s.page.table_id
    then modify
        (λ t. record t {
          page = append_row (new_row (int_text t.linha_js)) t.page;
          id_div_atributo = codes "result" ++ int_text t.linha_js;
        })
        s
    else fail s

-- The counter first, then the row.
abbrev pub add_row : Run Unit
add_row s = insert_row (record s { linha_js = increment s.linha_js })

-- `link.onclick = salvarNovoAtributo`, for the first link with the id.
abbrev pub hook_link : Run Unit
hook_link = do
  (value, x) ← field (codes "salvar")
  modify λ s. record s { page = update_page x.node set_on_click s.page }

-- `adicionaAtributo`
unfoldable pub adiciona_atributo : Text → Run Unit
unfolding increment int_text new_row append_row find_field update_page
adiciona_atributo id_padrao = do
  add_row
  modify λ s. record s {
    input_novo_atributo = codes "inputNovo" ++ int_text s.linha_js;
    padrao_met = id_padrao;
  }
  hook_link

module _ (has : Transport → Bool) where
  -- `exibeText` and `exibeTextAtributo`
  unfoldable pub exibe_text : Text → Text → Text → ℕ → Run Unit
  unfolding find_id processo_ajax
  exibe_text id_div_result id_padrao atributo bot = do
    modify λ s. set_disabled true (record s { botao = some bot })
    x ← element id_div_result
    processo_ajax has id_div_result id_padrao [] x.inner_html acao_exibe_text atributo

  unfoldable pub exibe_text_atributo : Text → Text → ℕ → Run Unit
  unfolding find_id processo_ajax
  exibe_text_atributo id_div_result id_atributo bot = do
    modify λ s. set_disabled true (record s { botao = some bot })
    x ← element id_div_result
    processo_ajax has id_div_result id_atributo [] x.inner_html acao_exibe_text_atributo []

  -- `salvarBase` and `salvarAtributo`
  unfoldable pub salvar_base : Text → Text → Text → Text → Run Unit
  unfolding find_field processo_ajax
  salvar_base id_div_resultado id_padrao id_input atributo = do
    (novo, x) ← field id_input
    processo_ajax has id_div_resultado id_padrao novo [] update_padrao atributo
    modify (set_disabled false)

  unfoldable pub salvar_atributo : Text → Text → Text → Run Unit
  unfolding find_field processo_ajax
  salvar_atributo id_div_resultado id_input id_atributo = do
    (novo, x) ← field id_input
    processo_ajax has id_div_resultado id_atributo novo [] update_atributo []
    modify (set_disabled false)

  -- `salvarNovoAtributo`
  unfoldable pub salvar_novo_atributo : Run Unit
  unfolding find_field processo_ajax
  salvar_novo_atributo = do
    s ← get
    (novo, x) ← field s.input_novo_atributo
    processo_ajax has s.id_div_atributo s.padrao_met novo [] novo_atributo []

  -- `confirmaExclusao`, with the user's answer.
  unfoldable pub confirma_exclusao : Bool → Text → Text → ℕ → Run Unit
  unfolding processo_ajax
  confirma_exclusao answer id_atributo id_resultado linha =
      if answer
      then (processo_ajax has id_resultado id_atributo [] [] deleta_atributo []
          >> modify λ s. record s { linha_apagar = linha })
      else done
