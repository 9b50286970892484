-- ===== src/Oai.antt =====
-- scripts/validateOAI.js: the check of an OAI-PMH link while it is typed. The calls of jQuery are
-- values, in the order in which the script makes them; `effect` is what jQuery documents of them on
-- the parts of the form that the script touches. `$.trim` is an argument.
pub mod Verdict
mod Tests
use Prim.Native.Nat.{ℕ}
use mathlib.Core.Bool.{Bool, true, false}
use mathlib.Core.Option.{Option, none, some}
use mathlib.Core.List.{List, [], ◌∷◌, ◌++◌}
use inroa.Base.{Text, codes, if◌then◌else◌, text_eq, get_elem?, starts_with_http}

-- The two classes of the input.
pub data Border : Type 0 where
  borda_vermelha borda_verde : Border

-- `input` is always the element `#url`; `resultadoTesteOAI` and `.msgError` are written by `html`.
pub data Call : Type 0 where
  input_remove_class input_add_class : Border → Call
  resultado_html : Text → Call
  resultado_add_texto_erro resultado_remove_texto_erro : Call
  submit_attr_disabled submit_remove_attr_disabled : Call
  msg_error_html : Text → Call
  get_json : Text → Call

-- The form: what the user typed, what is shown, whether it can be sent, and the links that were asked
-- for.
pub record Form : Type 0 where
  pub url : Text
  pub federation : Option Text
  pub is_red : Bool
  pub is_green : Bool
  pub resultado : Text
  pub is_texto_erro : Bool
  pub is_submit_disabled : Bool
  pub msg_error : Text
  pub links : List Text

abbrev pub set_border : Border → Bool → Form → Form
set_border borda_vermelha b form = record form { is_red = b }
set_border borda_verde b form = record form { is_green = b }

abbrev pub effect : Call → Form → Form
effect (input_remove_class c) form = set_border c false form
effect (input_add_class c) form = set_border c true form
effect (resultado_html html) form = record form { resultado = html }
effect resultado_add_texto_erro form = record form { is_texto_erro = true }
effect resultado_remove_texto_erro form = record form { is_texto_erro = false }
effect submit_attr_disabled form = record form { is_submit_disabled = true }
effect submit_remove_attr_disabled form = record form { is_submit_disabled = false }
effect (msg_error_html html) form = record form { msg_error = html }
effect (get_json link) form = record form { links = form.links ++ link ∷ [] }

abbrev pub effects : List Call → Form → Form
effects [] form = form
effects (call ∷ calls) form = effects calls (effect call form)

-- `setUrlSuccess`
abbrev pub set_url_success : List Call
set_url_success =
    input_remove_class borda_vermelha
    ∷ input_add_class borda_verde
    ∷ resultado_html []
    ∷ resultado_remove_texto_erro
    ∷ submit_remove_attr_disabled
    ∷ []

-- `setUrlError`
abbrev pub set_url_error : List Call
set_url_error =
    input_remove_class borda_verde
    ∷ input_add_class borda_vermelha
    ∷ resultado_html (codes "Link inv&aacute;lido!")
    ∷ resultado_add_texto_erro
    ∷ submit_attr_disabled
    ∷ []

abbrev pub bool_text : Bool → Text
bool_text true = codes "true"
bool_text false = codes "false"

-- The image of a check that runs, and the link that is asked for.
abbrev pub loader : Text → Text
loader root_url =
    codes "<img src='"
    ++ (root_url ++ codes "imagens/ajax-loader.gif' border='0' alt='Verificando' align='middle'>")

abbrev pub verifica_link : Text → Bool → Text → Text
verifica_link root_url federation url =
    root_url
    ++ (codes "admin/verificaLinkOAI?federation="
        ++ (bool_text federation ++ (codes "&link=" ++ url)))

-- A link to ask for: neither empty nor just the scheme.
abbrev pub is_typed : Text → Bool
is_typed url =
    if text_eq url [] then false else if text_eq url (codes "http://") then false else true

-- `$("#federation").val()` as a condition: absent and empty are false.
abbrev pub is_federation : Option Text → Bool
is_federation none = false
is_federation (some []) = false
is_federation (some (c ∷ s)) = true

module _ (root_url : Text) (trim : Text → Text) where
  -- `validaOAI`
  abbrev pub valida_oai : Bool → Form → List Call
  valida_oai federation form =
      if is_typed (trim form.url)
      then resultado_html (loader root_url)
        ∷ get_json (verifica_link root_url federation (trim form.url))
        ∷ []
      else set_url_error

  -- `testHttp`
  abbrev pub test_http : Form → List Call
  test_http form =
      if starts_with_http form.url
      then valida_oai (is_federation form.federation) form
      else set_url_error ++ msg_error_html (codes "A url deve iniciar com http:// ou https://") ∷ []

  -- `$(function() …)`: the check when the page is loaded.
  abbrev pub on_load : Form → List Call
  on_load form = if is_typed (trim form.url) then test_http form else []

-- The function that `getJSON` calls with the server's answer.
abbrev pub on_resultado : Bool → List Call
on_resultado resultado = if resultado then set_url_success else set_url_error

-- The user changes the link, or leaves its input; the server answers the request with a number.
pub data Event : Type 0 where
  type_url : Text → Event
  blur : Event
  resultado_event : ℕ → Bool → Event

module _ (root_url : Text) (trim : Text → Text) where
  abbrev pub step : Event → Form → Form
  step (type_url url) form = record form { url = url }
  step blur form = effects (test_http root_url trim form) form
  step (resultado_event i resultado) form = elim (get_elem? form.links i) [
    | none ↦ form
    | some link ↦ effects (on_resultado resultado) form
  ]

  unfoldable pub run_events : List Event → Form → Form
  run_events [] form = form
  run_events (event ∷ events) form = run_events events (step event form)
