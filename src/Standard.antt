-- ===== src/Standard.antt =====
-- scripts/funcoesPadrao.js: the editor of a metadata standard, with its variables, its requests and
-- what their changes do to the page. A handler is a function of the state; an error that it throws
-- leaves the state as it is by then.
pub mod Handlers
pub mod Events
pub mod Table
pub mod Count
pub mod Deletion
pub mod Editing
pub mod Collision
pub mod Unsaved
mod Tests
use Prim.Native.Nat.{ℕ, ◌+◌}
use mathlib.Core.Bool.{Bool, true, false}
use mathlib.Core.Option.{Option, none, some}
use mathlib.Core.List.{List, [], ◌∷◌, ◌++◌}
use inroa.Base.{
  Script, resume, ◌>>=◌, ◌>>◌, get, modify, done, fail, some_or_fail, Text, codes, ◌==◌,
  if◌then◌else◌, Result, ok, throws, type_error, ℤ, decrement,
}
use inroa.Page.{
  Element, Page, all_elements, find_id, find_field, node_of, update_page, set_html, delete_row,
}
use inroa.Update.{Transport, open_ajax, Change}

-- The actions that a request names.
pub data Acao : Type 0 where
  acao_exibe_text acao_exibe_text_atributo update_padrao update_atributo deleta_atributo
        novo_atributo :
      Acao

abbrev pub acao_text : Acao → Text
acao_text acao_exibe_text = codes "exibeText"
acao_text acao_exibe_text_atributo = codes "exibeTextAtributo"
acao_text update_padrao = codes "updatePadrao"
acao_text update_atributo = codes "updateAtributo"
acao_text deleta_atributo = codes "deletaAtributo"
acao_text novo_atributo = codes "novoAtributo"

-- A request that was sent, with what its handler keeps: `target` is the node of `exibeResultado`.
pub record Request : Type 0 where
  pub target : Option ℕ
  pub id_div : Text
  pub acao : Acao
  pub url : Text

-- The variables of the script, the buttons that are disabled, the page and the requests. `botao` is
-- `none` for the empty text, and `linha_apagar` is 0 for it, which is how `deleteRow` reads it.
pub record State : Type 0 where
  pub botao : Option ℕ
  pub padrao_met : Text
  pub linha_js : ℤ
  pub input_novo_atributo : Text
  pub id_div_atributo : Text
  pub linha_apagar : ℕ
  pub is_disabled : ℕ → Bool
  pub page : Page
  pub requests : List Request

abbrev pub Run : Type 0 → Type 0
Run = Script State

-- `document.getElementById(id)` and `document.getElementById(id).value`
abbrev pub element : Text → Run Element
element id s = some_or_fail (find_id id (all_elements s.page)) s

abbrev pub field : Text → Run (Text × Element)
field id s = some_or_fail (find_field id (all_elements s.page)) s

-- `exibeResultado.innerHTML = html`
abbrev pub show : (Text → List (Text × Text)) → Option ℕ → Text → Run Unit
show fields_of none html = fail
show fields_of (some node) html =
    modify λ s. record s { page = update_page node (set_html fields_of html) s.page }

-- `removeLinha`
unfoldable pub remove_linha : Text → ℕ → Run Unit
unfolding delete_row decrement
remove_linha nome_tabela linha s =
    resume (λ page. modify λ t. record t { page = page; linha_js = decrement t.linha_js })
      (delete_row nome_tabela linha s.page, s)

-- The link of a request.
abbrev pub link : Acao → Text → Text → Text → Text → Text → Text
link acao id_div novo valor_anterior id atributo =
    codes "respostaAjaxPadrao.jsp?tipo="
    ++ (acao_text acao
        ++ (codes "&idResultado="
            ++ (id_div
                ++ (codes "&novo="
                    ++ (novo
                        ++ (codes "&valorAnterior="
                            ++ (valor_anterior
                                ++ (codes "&id=" ++ (id ++ (codes "&atributo=" ++ atributo))))))))))

-- `processoAjax`: the element is looked up, then the request is sent.
unfoldable pub processo_ajax :
    (Transport → Bool) → Text → Text → Text → Text → Acao → Text → Run Unit
unfolding open_ajax find_id
processo_ajax has id_div id novo valor_anterior acao atributo = do
  s ← get
  some_or_fail (open_ajax has)
  modify λ t. record t {
    requests =
        t.requests
        ++ record {
          target = node_of (find_id id_div (all_elements s.page));
          id_div = id_div;
          acao = acao;
          url = link acao id_div novo valor_anterior id atributo;
        }
          ∷ [];
  }

-- What a finished request does after its text is shown.
abbrev pub after_response : Request → Run Unit
after_response request = elim request.acao [
  | deleta_atributo ↦ do s ← get; remove_linha (codes "tabela") s.linha_apagar
  | novo_atributo ↦ do x ← element (request.id_div ++ codes "D"); show (λ _. []) (some x.node) []
  | _ ↦ done
]

-- `ajax.onreadystatechange` of `processoAjax`
unfoldable pub on_ready_state_change : (Text → List (Text × Text)) → Request → Change → Run Unit
unfolding remove_linha update_page find_id
on_ready_state_change fields_of request change =
    if change.ready_state == 1
    then show fields_of request.target (codes "Aguarde...")
    else if change.ready_state == 4
    then (if change.status == 200
        then show fields_of request.target change.response_text >> after_response request
        else show fields_of request.target (codes "Erro nas funções do Ajax"))
    else done
