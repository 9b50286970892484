-- ===== src/Mapping.antt =====
-- scripts/funcoesMapeamento.js: the editor of mappings between metadata standards. This file has its
-- variables, its requests and what their changes do.
pub mod Handlers
pub mod Rows
pub mod Events
pub mod Walk
pub mod Table
pub mod Buttons
pub mod Answers
pub mod Composto
pub mod Editing
pub mod Unsaved
mod Tests
use Prim.Native.Nat.{ℕ, ◌+◌}
use mathlib.Core.Bool.{Bool, true, false}
use mathlib.Core.Option.{Option, none, some}
use mathlib.Core.List.{List, [], ◌∷◌, ◌++◌}
use inroa.Base.{
  Text, codes, ◌==◌, if◌then◌else◌, text_eq, ℤ, decrement, parse_int, is_positive, Script, resume,
  ◌>>=◌, ◌>>◌, modify, done, fail, some_or_fail,
}
use inroa.Page.{
  Element, Page, all_elements, find_id, find_field, node_of, update_page, set_html, delete_row,
}
use inroa.Update.{Transport, open_ajax, Change}

-- What a request does when it is done: show the text, tell that a mapping was saved and load the page
-- again, or show how a deletion went and remove a row of a table.
pub data Acao : Type 0 where
  mostrar : Acao
  salvar : Acao
  excluir : Text → ℕ → Acao

pub record Request : Type 0 where
  pub target : Option ℕ
  pub acao : Acao
  pub url : Text

-- The variables of the script, the buttons that are disabled, the page, the requests that were sent,
-- the dialogs that were shown and how often the page was loaded again. `botao` is `none` for the
-- empty text.
pub record State : Type 0 where
  pub botao : Option ℕ
  pub linha_composto : ℕ
  pub id_origem : Text
  pub id_destino : Text
  pub id_origem_comp : Text
  pub id_destino_comp : Text
  pub padrao_met : Text
  pub tipo_mapeamento : Text
  pub totals : ℤ
  pub is_disabled : ℕ → Bool
  pub page : Page
  pub requests : List Request
  pub alerts : List Text
  pub reloads : ℕ

abbrev pub Run : Type 0 → Type 0
Run = Script State

-- `document.getElementById(id)`: an element without an id has the empty text, which is not looked for.
unfoldable pub by_id : Text → Page → Option Element
unfolding find_id
by_id [] page = none
by_id (c ∷ id) page = find_id (c ∷ id) (all_elements page)

abbrev pub element : Text → Run Element
element id s = some_or_fail (by_id id s.page) s

abbrev pub field : Text → Run (Text × Element)
field id s = some_or_fail (find_field id (all_elements s.page)) s

abbrev pub show : (Text → List (Text × Text)) → Option ℕ → Text → Run Unit
show fields_of none html = fail
show fields_of (some node) html =
    modify λ s. record s { page = update_page node (set_html fields_of html) s.page }

-- The element is looked up before the request is sent, also if there is none.
unfoldable pub send : (Transport → Bool) → Text → Acao → Text → Run Unit
unfolding open_ajax by_id
send has id_resultado acao url s =
    (some_or_fail (open_ajax has)
        >> modify λ t. record t {
          requests =
              t.requests
              ++ record { target = node_of (by_id id_resultado s.page); acao = acao; url = url }
                ∷ [];
        })
      s

-- `removeItem` and `removeLinha`
abbrev pub delete_linha : Text → ℕ → Run Unit
delete_linha nome_tabela linha s =
    resume (λ page. modify λ t. record t { page = page }) (delete_row nome_tabela linha s.page, s)

unfoldable pub remove_item : ℕ → Run Unit
unfolding delete_row
remove_item linha = delete_linha (codes "tabela") linha

unfoldable pub remove_linha : Text → ℕ → Run Unit
unfolding delete_row decrement
remove_linha nome_tabela linha = do
  delete_linha nome_tabela linha
  modify λ s. record s { totals = decrement s.totals }

-- `excluirAjax`, a finished request: the text is an error, or the number of objects that are gone.
abbrev pub show_excluido :
    (Text → List (Text × Text)) → Option ℕ → Text → ℕ → Text → Option (Bool × ℕ) → Run Unit
show_excluido fields_of target id_tabela linha resultado none = show fields_of target resultado
show_excluido fields_of target id_tabela linha resultado (some n) =
    if is_positive n
    then show fields_of target (codes "Exclu&iacute;do com sucesso.")
      >> remove_linha id_tabela linha
    else show fields_of target (codes "Ocorreu algum erro ao excluir da base de dados.")

-- `salvarAjax`, a finished request.
abbrev pub alert_salvo : Option (Bool × ℕ) → Text
alert_salvo none = codes "Erro ao salvar o mapeamento na base de dados. Verifique o log."
alert_salvo (some n) = codes "Salvo!"

abbrev pub after_response : (Text → List (Text × Text)) → Option ℕ → Text → Acao → Run Unit
after_response fields_of target text mostrar = show fields_of target text
after_response fields_of target text salvar = modify λ s. record s {
  alerts = s.alerts ++ alert_salvo (parse_int text) ∷ [];
  reloads = s.reloads + 1;
}
after_response fields_of target text (excluir id_tabela linha) =
    show_excluido fields_of target id_tabela linha text (parse_int text)

-- `ajax.onreadystatechange` of `processo`, `salvarAjax`, `excluirAjax` and `preencheDescricaoTM`
unfoldable pub on_ready_state_change : (Text → List (Text × Text)) → Request → Change → Run Unit
unfolding remove_linha update_page parse_int
on_ready_state_change fields_of request change =
    if change.ready_state == 1
    then show fields_of request.target (codes "Aguarde...")
    else if change.ready_state == 4
    then (if change.status == 200
        then after_response fields_of request.target change.response_text request.acao
        else show fields_of request.target (codes "Erro nas funções do Ajax"))
    else done
