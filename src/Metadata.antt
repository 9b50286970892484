-- ===== src/Metadata.antt =====
-- scripts/showMetadata.js: `buildList`, which writes the metadata of a document as nested lists.
-- Loading has the request for them, Reader a reader of tags, and Outline what it reads in the lists;
-- Markup is about values that hold tags.
pub mod Loading
pub mod Reader
pub mod Outline
pub mod Markup
mod Tests
use Prim.Native.Nat.{ℕ}
use mathlib.Core.Bool.{Bool, true, false, not, ◌&&◌, ◌||◌}
use mathlib.Core.Option.{Option, none, some}
use mathlib.Core.List.{[], ◌∷◌, ◌++◌}
use inroa.Base.{Text, codes, if◌then◌else◌, text_eq, starts_with_http}

-- A member of the parsed JSON, by the type of its `children`: an array and `null` are objects to
-- `typeof`, an absent member is not. Labels and values are texts; an absent value is `none`.
mutual
  pub data Node : Type 0 where
    parent : Text → Nodes → Node
    null_children : Text → Node
    leaf : Text → Option Text → Node

  pub data Nodes : Type 0 where
    nil : Nodes
    cons : Node → Nodes → Nodes

-- `json[i].value && json[i].value !== "NULL"`
abbrev pub is_shown : Text → Bool
is_shown [] = false
is_shown (c ∷ s) = not (text_eq (c ∷ s) (codes "NULL"))

abbrev pub value_html : Text → Text
value_html value =
    if starts_with_http value
    then codes "<a class=\"link-interno\" href=\""
      ++ (value ++ (codes "\">" ++ (value ++ codes "</a>")))
    else value

abbrev pub leaf_html : Text → Option Text → Text
leaf_html label none = []
leaf_html label (some value) =
    if is_shown value
    then codes "<li class=\"row\"><span class=\"name col-md-2 col-xs-12\">"
      ++ (label
          ++ (codes "</span><span class=\"value col-md-10 col-xs-12\">"
              ++ (value_html value ++ codes "</span></li>")))
    else []

abbrev pub submenu_html : Text → Text → Text
submenu_html label list =
    codes "<li class=\"well shadow\"><span class=\"title\">"
    ++ (label ++ (codes "</span>" ++ (list ++ codes "</li>")))

abbrev pub list_html : Text → Text
list_html items = codes "<ul>" ++ (items ++ codes "</ul>")

-- The body of the loop, and the loop. The recursive call of the source is `list_html` of the loop.
unfoldable mutual
  pub node_html : Node → Text
  node_html (parent label children) = submenu_html label (list_html (nodes_html children))
  node_html (null_children label) = submenu_html label (list_html [])
  node_html (leaf label value) = leaf_html label value

  pub nodes_html : Nodes → Text
  nodes_html nil = []
  nodes_html (cons n ns) = node_html n ++ nodes_html ns

unfoldable pub build_list : Nodes → Text
unfolding node_html
build_list json = list_html (nodes_html json)
