-- ===== src/Fields.antt =====
-- scripts/funcoes.js: the keys that a field accepts, `trim`, and the functions that fill or show parts
-- of a form.
pub mod Trim
mod Tests
use Prim.Native.Nat.{ℕ, ◌%◌}
use mathlib.Core.Bool.{Bool, true, false}
use mathlib.Core.Option.{Option, none, some}
use mathlib.Core.List.{List, [], ◌∷◌, ◌++◌, map}
use inroa.Base.{
  Text, codes, ◌==◌, ltb, if◌then◌else◌, text_eq, is_digit, is_space, trim_start, Script, ◌>>=◌,
  ◌>>◌, modify, some_or_fail,
}
use inroa.Page.{Element, Page, all_elements, find_id, find_field, update_page, set_html}

-- A key: the two members of an event that the browsers use.
pub record Key : Type 0 where
  pub key_code : ℕ
  pub char_code : ℕ

-- `document.all` tells which of the two is read.
abbrev pub code_of : Bool → Key → ℕ
code_of document_all e = if document_all then e.key_code else e.char_code

-- `isNumber`: whether the key is let through. `String.fromCharCode` takes 16 bits.
unfoldable pub is_number : Bool → Key → Bool
is_number document_all e =
    let evt = code_of document_all e in if ltb evt 20 then true else is_digit (evt % 65536)

-- `str.replace(/^\s+|\s+$/g, "")`
abbrev pub drop_space : ℕ → Text → Text
drop_space c [] = if is_space c then [] else c ∷ []
drop_space c (d ∷ s) = c ∷ d ∷ s

unfoldable pub trim_end : Text → Text
trim_end [] = []
trim_end (c ∷ s) = drop_space c (trim_end s)

unfoldable pub trim : Text → Text
unfolding trim_start trim_end
trim str = trim_end (trim_start str)

-- A page with a form: the variable `rootUrl`, the classes of elements that functions are given, by
-- their node, and the elements that they look up.
pub record Form : Type 0 where
  pub root_url : Text
  pub class_name : ℕ → Text
  pub page : Page

abbrev pub set_class : ℕ → Text → Form → Form
set_class node name form = record form {
  class_name = λ n. if n == node then name else form.class_name n;
}

-- `setRootUrl`
abbrev pub set_root_url : Text → Form → Form
set_root_url url form = record form { root_url = url }

abbrev pub set_value : Text → Text → Element → Element
set_value id value x = record x {
  fields = map (λ (f : Text × Text). if text_eq f.0 id then (f.0, value) else f) x.fields;
}

-- `insereInputValue`
unfoldable pub insere_input_value : Text → Text → Script Form (Unit {0})
unfolding find_field update_page
insere_input_value id texto = do
  (value, x) ← λ form. some_or_fail (find_field id (all_elements form.page)) form
  modify λ form. record form { page = update_page x.node (set_value id texto) form.page }

-- `insereValorDiv`
unfoldable pub insere_valor_div : (Text → List (Text × Text)) → Text → Text → Script Form (Unit {0})
unfolding find_id update_page
insere_valor_div fields_of id texto = do
  x ← λ form. some_or_fail (find_id id (all_elements form.page)) form
  modify λ form. record form { page = update_page x.node (set_html fields_of texto) form.page }

-- `exibeDivSenha`: the classes are set before the field is looked up.
unfoldable pub exibe_div_senha : ℕ → ℕ → Script Form (Unit {0})
unfolding insere_input_value
exibe_div_senha id_senha id_rep_senha = do
  modify λ form.
      set_class id_rep_senha (codes "LinhaEntrada") (set_class id_senha (codes "hidden") form)
  insere_input_value (codes "confsenhabd") []

-- `recalcularIndice`
abbrev pub recalcular_indice : ℕ → ℕ → Form → Form
recalcular_indice destino form state = set_class form (codes "hidden") (set_class destino [] state)
