-- ===== src/Update.antt =====
-- scripts/funcoes.js: `openAjax`, and the requests that update a repository or a federation and show
-- how it went in an element of the page.
pub mod Outcome
mod Tests
use Prim.Native.Nat.{ℕ}
use mathlib.Core.Bool.{Bool, true, false}
use mathlib.Core.Option.{Option, none, some}
use mathlib.Core.List.{List, [], ◌∷◌, ◌++◌}
use inroa.Base.{Text, codes, ◌==◌, if◌then◌else◌, parse_int, is_positive, decimal}

-- The objects that a browser may have for a request.
pub data Transport : Type 0 where
  xml_http_request msxml2_xml_http microsoft_xml_http : Transport

-- The constructors are tried in turn; `none` is the value `false`.
unfoldable pub open_ajax : (Transport → Bool) → Option Transport
open_ajax has =
    if has xml_http_request
    then some xml_http_request
    else if has msxml2_xml_http
    then some msxml2_xml_http
    else if has microsoft_xml_http
    then some microsoft_xml_http
    else none

-- The four links, with the id as its text.
unfoldable pub atualiza_rep_ajax : Text → Text → Text
atualiza_rep_ajax root_url id =
    root_url ++ (codes "admin/repositories/" ++ (id ++ codes "/update?apagar=false"))

unfoldable pub apaga_atualiza_rep_ajax : Text → Text → Text
apaga_atualiza_rep_ajax root_url id =
    root_url ++ (codes "admin/repositories/" ++ (id ++ codes "/update?apagar=true"))

unfoldable pub delete_and_update_sub_fed_ajax : Text → Text → Text
delete_and_update_sub_fed_ajax root_url id =
    root_url ++ (codes "admin/federations/" ++ (id ++ codes "/update?apagar=true"))

unfoldable pub atualiza_subfed_ajax : Text → Text → Text
atualiza_subfed_ajax root_url id =
    root_url ++ (codes "admin/federations/" ++ (id ++ codes "/update?apagar=false"))

-- The element where the results are shown.
pub record ShowResults : Type 0 where
  pub inner_html : Text
  pub class_name : Text

-- `updateSubnodeAjax`: the request that is sent, and the element while it runs. `none` is the
-- TypeError of `false.open`, before anything is shown.
unfoldable pub update_subnode_ajax :
    (Transport → Bool) → Text → Text → ShowResults → Option ((Text × Text) × ShowResults)
unfolding open_ajax
update_subnode_ajax has root_url link show = elim (open_ajax has) [
  | none ↦ none
  | some ajax ↦ some (
    ((codes "POST", link)),
    record {
      inner_html =
          codes "<img src='"
          ++ (root_url
              ++ codes
                  "imagens/ajax-loader.gif' border='0' alt='Atualizando' align='middle'> Aguarde, atualizando...");
      class_name = [];
    },
  )
]

-- `isNaN(parseInt(resultado))`, else `parseInt(resultado) > 0`.
abbrev pub show_number : Text → Option (Bool × ℕ) → ShowResults
show_number resultado none = record { inner_html = resultado; class_name = codes "textoErro" }
show_number resultado (some n) =
    if is_positive n
    then record { inner_html = codes "Atualizado com sucesso!"; class_name = codes "sucesso" }
    else record {
      inner_html = codes "Ocorreu algum erro ao Atualizar!";
      class_name = codes "textoErro";
    }

-- What is shown when the request is done, by its status and text.
unfoldable pub show_response : ℕ → Text → ShowResults
show_response status response =
    if status == 200
    then show_number response (parse_int response)
    else if status == 403
    then record {
      inner_html = codes "Você não tem permissão para executar essa operação.";
      class_name = codes "textoErro";
    }
    else record {
      inner_html = codes "Erro nas funções do Ajax. http status:" ++ decimal status;
      class_name = codes "textoErro";
    }

-- A change of the request's state, as the browser reports it.
pub record Change : Type 0 where
  pub ready_state : ℕ
  pub status : ℕ
  pub response_text : Text

unfoldable pub on_ready_state_change : Change → ShowResults → ShowResults
on_ready_state_change change show =
    if change.ready_state == 4 then show_response change.status change.response_text else show

-- The changes of one request, in order.
unfoldable pub run_changes : List Change → ShowResults → ShowResults
run_changes [] show = show
run_changes (change ∷ changes) show = run_changes changes (on_ready_state_change change show)
