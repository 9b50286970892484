-- ===== src/Page.antt =====
-- The part of a page that scripts/funcoesPadrao.js and scripts/funcoesMapeamento.js read and write:
-- elements with an id, and one table whose rows hold such elements. What the browser finds in a text
-- of HTML that a response brings is an argument, `fields_of`.
pub mod Rows
pub mod Elements
pub mod Ids
pub mod Editing
pub mod Links
pub mod Extended
use Prim.Native.Nat.{ℕ, zero, suc, ◌+◌}
use mathlib.Core.Bool.{Bool, true, false}
use mathlib.Core.Option.{Option, none, some}
use mathlib.Core.List.{List, [], ◌∷◌, ◌++◌, map}
use inroa.Base.{
  Text, ◌==◌, if◌then◌else◌, text_eq, length, Result, ok, throws, type_error, index_size_error,
}

-- An element that is addressed by its id. `node` tells it from other elements with the same id;
-- `fields` are the inputs and links in it, with the values of the inputs; `on_click` is whether a
-- link in it has the handler that saves.
pub record Element : Type 0 where
  pub node : ℕ
  pub id : Text
  pub inner_html : Text
  pub fields : List (Text × Text)
  pub on_click : Bool

pub record Page : Type 0 where
  pub next_node : ℕ
  pub elements : List Element
  pub table_id : Text
  pub rows : List (List Element)

-- The elements of all rows.
abbrev pub row_elements : List (List Element) → List Element
row_elements [] = []
row_elements (row ∷ rows) = row ++ row_elements rows

-- In the order of the document.
abbrev pub all_elements : Page → List Element
all_elements page = page.elements ++ row_elements page.rows

-- `document.getElementById(id)` among these elements: the first with the id.
unfoldable pub find_id : Text → List Element → Option Element
find_id id [] = none
find_id id (x ∷ xs) = if text_eq x.id id then some x else find_id id xs

-- The element that was looked up, if there is one.
abbrev pub node_of : Option Element → Option ℕ
node_of none = none
node_of (some x) = some x.node

abbrev pub lookup_field : Text → List (Text × Text) → Option Text
lookup_field id [] = none
lookup_field id ((i, v) ∷ fields) = if text_eq i id then some v else lookup_field id fields

-- An input or a link with this id: its value, and the element in which it is.
unfoldable pub find_field : Text → List Element → Option (Text × Element)
find_field id [] = none
find_field id (x ∷ xs) = elim (lookup_field id x.fields) [
  | some v ↦ some (v, x)
  | none ↦ find_field id xs
]

-- A change of one element of the page, wherever it is; nothing if it is not on the page any more.
abbrev pub update_node : ℕ → (Element → Element) → Element → Element
update_node node f x = if x.node == node then f x else x

unfoldable pub update_page : ℕ → (Element → Element) → Page → Page
update_page node f page = record page {
  elements = map (update_node node f) page.elements;
  rows = map (map (update_node node f)) page.rows;
}

-- `element.innerHTML = html`: what was in the element is gone.
abbrev pub set_html : (Text → List (Text × Text)) → Text → Element → Element
set_html fields_of html x = record x {
  inner_html = html;
  fields = fields_of html;
  on_click = false;
}

-- `link.onclick = …`, for the link that saves.
abbrev pub set_on_click : Element → Element
set_on_click x = record x { on_click = true }

-- What the user types or selects.
abbrev pub set_field : Text → Text → Text × Text → Text × Text
set_field id value (i, v) = if text_eq i id then (i, value) else (i, v)

abbrev pub type_in : Text → Text → Element → Element
type_in id value x = record x { fields = map (set_field id value) x.fields }

-- A click on the link `salvar` in the element with a node does something if the link has a handler.
abbrev pub has_handler : ℕ → List Element → Bool
has_handler node [] = false
has_handler node (x ∷ xs) = if x.node == node then x.on_click else has_handler node xs

-- `botao.disabled = v`
abbrev pub assign : ℕ → Bool → (ℕ → Bool) → ℕ → Bool
assign b v is_disabled x = if x == b then v else is_disabled x

-- `tbl.insertRow(-1)`, with the elements that its cells get; their nodes are new.
abbrev pub number_nodes : ℕ → List Element → List Element
number_nodes n [] = []
number_nodes n (x ∷ xs) = record x { node = n } ∷ number_nodes (suc n) xs

unfoldable pub append_row : List Element → Page → Page
append_row row page = record page {
  next_node = page.next_node + length row;
  rows = page.rows ++ number_nodes page.next_node row ∷ [];
}

-- The rows without the one at an index.
unfoldable pub remove_at {ℓ} : {A : Type ℓ} → ℕ → List A → List A
remove_at i [] = []
remove_at zero (x ∷ xs) = xs
remove_at (suc i) (x ∷ xs) = x ∷ remove_at i xs

abbrev pub is_below : ℕ → ℕ → Bool
is_below zero zero = false
is_below zero (suc n) = true
is_below (suc i) zero = false
is_below (suc i) (suc n) = is_below i n

-- `document.getElementById(name).deleteRow(index)`
unfoldable pub delete_row : Text → ℕ → Page → Result Page
unfolding remove_at
delete_row name index page =
    if text_eq name page.table_id
    then (if is_below index (length page.rows)
        then ok (record page { rows = remove_at index page.rows })
        else throws index_size_error)
    else throws type_error
