-- ===== src/Mapping/Rows.antt =====
-- The functions that add and remove rows of the table.
use Prim.Native.Nat.{ℕ, suc, ◌%◌}
use mathlib.Core.Bool.{Bool, false}
use mathlib.Core.Option.{Option, none, some}
use mathlib.Core.List.{List, [], ◌∷◌, ◌++◌}
use inroa.Base.{
  Text, codes, ◌==◌, if◌then◌else◌, text_eq, pos_part, neg_part, ◌+◌, increment, int_text, decimal,
  ◌>>=◌, ◌>>◌, get, modify, fail,
}
use inroa.Page.{
  set_on_click, Element, all_elements, find_field, update_page, append_row, delete_row,
}
use inroa.Update.{Transport}
use inroa.Mapping.{State, Run, delete_linha}
use inroa.Mapping.Handlers.{processo}

-- An element with an id and a text, and a cell without an id that holds buttons or links.
abbrev pub div : Text → Text → Element
div id html = record { node = 0; id = id; inner_html = html; fields = []; on_click = false }

abbrev pub cell : Text → List (Text × Text) → Element
cell html fields = record {
  node = 0;
  id = [];
  inner_html = html;
  fields = fields;
  on_click = false;
}

abbrev pub sem_javascript : Text
sem_javascript = codes "Javascript n&atilde;o est&aacute; funcionando"

-- The class of a row, by the parity of `totals`.
abbrev pub row_class : State → Text
row_class s =
    if (pos_part s.totals + neg_part s.totals) % 2 == 0 then codes "price-yes" else codes "price-no"

abbrev pub complementar_html : ℕ → Text → Text
complementar_html linha_real cl =
    codes
      "<input type=\"button\" class=\"BotaoMapeamento\" size=\"30\" name=\"addMap\" id=\"addMap\" value=\"+ Mapeamento Complementar\" onclick=\"setMapeamentoComposto('"
    ++ (decimal linha_real ++ (codes "', '" ++ (cl ++ codes "');\"/>")))

abbrev pub spaces : Text
spaces = 10 ∷ codes "                            "

abbrev pub links_html : Text
links_html =
    codes "<a title=\"Salvar\" id=\"salvar\"> "
    ++ (spaces
        ++ (codes
              "    <img src=\"../imagens/ico24_salvar.gif\" border=\"0\" width=\"24\" height=\"24\" alt=\"Salvar\" align=\"middle\">"
            ++ (spaces
                ++ (codes "</a>&nbsp;"
                    ++ (spaces
                        ++ (codes
                              "<a id=\"removeLinha\" title=\"Remover Linha\" onclick=\"removeLinha('tabela', this.parentNode.parentNode.rowIndex);\">"
                            ++ (spaces
                                ++ (codes
                                      "    <img src=\"../imagens/ico24_deletar.gif\" border=\"0\" width=\"24\" height=\"24\" alt=\"Excluir\" align=\"middle\">"
                                    ++ (spaces ++ codes "</a>")))))))))

-- A row of `adicionaMap`, with the value of `totals` as a text, and one of `setMapeamentoComposto`.
unfoldable pub new_row : Text → ℕ → Text → List Element
new_row total linha_real cl =
    div (codes "result" ++ total) sem_javascript
    ∷ div (codes "destino" ++ total) sem_javascript
    ∷ cell (complementar_html linha_real cl)
        ((codes "addMap", codes "+ Mapeamento Complementar") ∷ [])
    ∷ cell links_html ((codes "salvar", []) ∷ (codes "removeLinha", []) ∷ [])
    ∷ []

unfoldable pub composto_row : ℕ → List Element
composto_row linha =
    div (codes "resultComplementar" ++ decimal linha) (codes "origem")
    ∷ div (codes "destinoComplementar" ++ decimal linha) (codes "destino")
    ∷ []

-- `tbl.insertRow(-1)` and the cells; a page without the table throws.
abbrev pub insert_row : List Element → Run Unit
insert_row row s =
    if text_eq (codes "tabela") s.page.table_id
    then modify (λ t. record t { page = append_row row t.page }) s
    else fail s

-- `link.onclick = salvarNovoMapeamento`, for the link that was looked up.
abbrev pub hook : Option (Text × Element) → Run Unit
hook none = fail
hook (some (value, x)) = modify λ s. record s { page = update_page x.node set_on_click s.page }

-- `totals++`, and `linhaComposto = linha; linhaComposto++`
unfoldable pub count_up : State → State
unfolding increment
count_up s = record s { totals = increment s.totals }

abbrev pub set_linha_composto : ℕ → State → State
set_linha_composto linha s = record s { linha_composto = suc linha }

-- What `addMap` and `setMapeamentoComposto` leave to `salvarNovoMapeamento`.
abbrev pub set_variables : Text → Text → Text → State → State
set_variables id_div_destino padrao_metadados tipo_map s = record s {
  id_origem = codes "atribOrigem";
  id_destino = codes "atrb" ++ id_div_destino;
  padrao_met = padrao_metadados;
  tipo_mapeamento = tipo_map;
  id_origem_comp = [];
  id_destino_comp = [];
}

unfoldable pub set_complementares : ℕ → State → State
unfolding decimal
set_complementares linha s = record s {
  id_origem_comp = codes "atrbresultComplementar" ++ decimal linha;
  id_destino_comp = codes "geral";
}

-- `removeComplementar`
unfoldable pub remove_complementar : Run Unit
unfolding delete_row
remove_complementar = do
  s ← get
  delete_linha (codes "tabela") s.linha_composto
  modify λ t. record t { id_origem_comp = []; id_destino_comp = [] }

module _ (has : Transport → Bool) where
  -- `addMap`: the link is looked up before the variables are set.
  unfoldable pub add_map : Text → Text → Text → Text → Run Unit
  unfolding processo find_field update_page
  add_map id_div_origem id_div_destino padrao_metadados tipo_map = do
    processo has id_div_destino (codes "0") (codes "comboBox") [] [] []
    processo has id_div_origem padrao_metadados (codes "comboOrigem") [] [] []
    s ← get
    modify (set_variables id_div_destino padrao_metadados tipo_map)
    hook (find_field (codes "salvar") (all_elements s.page))

  -- `adicionaMap`
  unfoldable pub adiciona_map : ℕ → Text → Text → Run Unit
  unfolding add_map count_up int_text new_row append_row decimal
  adiciona_map linha_real id_padrao tipo_map = do
    modify count_up
    s ← get
    insert_row (new_row (int_text s.totals) linha_real (row_class s))
    add_map (codes "result" ++ int_text s.totals) (codes "destino" ++ int_text s.totals) id_padrao
        tipo_map

  -- `setMapeamentoComposto`
  unfoldable pub set_mapeamento_composto : ℕ → Run Unit
  unfolding processo set_complementares composto_row append_row find_field update_page decimal
  set_mapeamento_composto linha = do
    modify (set_linha_composto linha)
    insert_row (composto_row linha)
    processo has (codes "resultComplementar" ++ decimal linha) (codes "0") (codes "comboBox") [] []
        []
    processo has (codes "destinoComplementar" ++ decimal linha) (codes "0") (codes "textComp") [] []
        []
    s ← get
    modify (set_complementares linha)
    hook (find_field (codes "salvar") (all_elements s.page))
