-- ===== src/Trees.antt =====
-- scripts/buscaAvancada.js: the boxes of the advanced search, which follow the two trees, and the range
-- of ages. Which nodes a tree has selected is jsTree's part: it comes with an event, or by arguments.
pub mod Runs
pub mod Selection
mod Tests
use mathlib.Core.Bool.{Bool, true, false, ◌&&◌}
use mathlib.Core.List.{List, [], ◌∷◌, ◌++◌, map}
use inroa.Base.{Text, codes, if◌then◌else◌, text_eq, any}

-- Where a box stands.
pub data Tree : Type 0 where
  federations repositories elsewhere : Tree

abbrev pub tree_eq : Tree → Tree → Bool
tree_eq federations federations = true
tree_eq repositories repositories = true
tree_eq elsewhere elsewhere = true
tree_eq _ _ = false

-- A box, with the ids of the elements that it stands in.
pub record Box : Type 0 where
  pub tree : Tree
  pub ancestors : List Text
  pub checked : Bool

abbrev pub is_under : Text → Box → Bool
is_under id box = any (λ a. text_eq a id) box.ancestors

-- `$("#" + x[i] + " input:checkbox").prop("checked", true)`
abbrev pub check_under : Text → Box → Box
check_under id box = if is_under id box then record box { checked = true } else box

-- `setChecked`
unfoldable pub set_checked : List Text → List Box → List Box
set_checked [] boxes = boxes
set_checked (id ∷ x) boxes = set_checked x (map (check_under id) boxes)

-- `$("#tree… input:checked").prop("checked", false)`
abbrev pub uncheck : Tree → Box → Box
uncheck tree box = if tree_eq box.tree tree then record box { checked = false } else box

-- The handlers of `changed.jstree` of the two trees.
unfoldable pub on_changed : Tree → List Text → List Box → List Box
unfolding set_checked
on_changed tree selected boxes = set_checked selected (map (uncheck tree) boxes)

-- The form: the tree of federations may be hidden, and a slider may be disabled.
pub record Form : Type 0 where
  pub boxes : List Box
  pub is_tree_shown : Bool
  pub is_age_enabled : Bool

-- The handler of `submit`. `open_all` is what becomes of the boxes when jsTree opens the nodes of the
-- tree, and `selected` is what it then says is selected.
unfoldable pub on_submit : (List Box → List Box) → (List Box → List Text) → Form → Form
unfolding set_checked
on_submit open_all selected form =
    let boxes = open_all form.boxes in
    record form { is_tree_shown = false; boxes = set_checked (selected boxes) boxes }

-- The handler of a click on `#adultAge`, with what the box is then.
abbrev pub on_adult_age : Bool → Form → Form
on_adult_age checked form = record form { is_age_enabled = if checked then false else true }

-- An item of a list around a checked box, as the script finds it when the page is loaded: its content
-- goes into a link.
abbrev pub wrap_item : Text → Text
wrap_item content = codes "<a href=\"#\" class=\"jstree-clicked\">" ++ (content ++ codes "</a>")
