-- ===== src/Trees/Selection.antt =====
-- The boxes show what is selected.
use mathlib.Core.Path.{◌≡◌, refl, sym, ap, ◌∙◌}
use mathlib.Core.Logic.{inl, inr}
use mathlib.Core.Bool.{Bool, true, false, ◌||◌}
use mathlib.Core.List.{List, [], ◌∷◌, map}
use inroa.Base.{map-map_eq, map_fixed, Text, if◌then◌else◌, any, Bool-cases, All-every}
use inroa.Trees.{Tree, tree_eq, Box, is_under, check_under, set_checked, uncheck, on_changed}

-- Whether one of the ids is that of an element around the box.
abbrev pub is_selected : List Text → Box → Bool
is_selected selected box = any (λ id. is_under id box) selected

-- A box as the selection of a tree leaves it: checked if it is selected, else unchecked in this tree
-- and as it was elsewhere.
abbrev pub decide : Tree → List Text → Box → Box
decide tree selected box = record box {
  checked = is_selected selected box || (if tree_eq box.tree tree then false else box.checked);
}

-- Checking the boxes under some ids.
abbrev pub check_all : List Text → Box → Box
check_all selected box = record box { checked = is_selected selected box || box.checked }

or_true : (b : Bool) → (b || true) ≡ true
or_true true = refl
or_true false = refl

check_all-check_under :
    (id : Text) (x : List Text) (box : Box)
    → check_all x (check_under id box) ≡ check_all (id ∷ x) box
check_all-check_under id x box = elim (Bool-cases (is_under id box)) [
  | inl under ↦
      rw (check_under, under)
        (ap (λ (c : Bool). record box { checked = c }) (or_true (is_selected x box)))
  | inr other ↦ rw (check_under, other) refl
]

set_checked_lem : (x : List Text) (boxes : List Box) → set_checked x boxes ≡ map (check_all x) boxes
unfolding set_checked
set_checked_lem [] boxes =
    sym (
      map_fixed (check_all []) boxes
        (All-every (λ box. check_all [] box ≡ box) (λ box. refl) boxes))
set_checked_lem (id ∷ x) boxes =
    set_checked_lem x (map (check_under id) boxes)
    ∙ map-map_eq (check_all x) (check_under id) (check_all (id ∷ x)) boxes
        (check_all-check_under id x)

decide_lem :
    (tree : Tree) (selected : List Text) (box : Box)
    → check_all selected (uncheck tree box) ≡ decide tree selected box
decide_lem tree selected box = elim (Bool-cases (tree_eq box.tree tree)) [
  | inl within ↦ rw (uncheck, within) refl
  | inr without ↦ rw (uncheck, without) refl
]

-- After a change of a tree's selection, a box is checked if an element around it is selected; any other
-- box of this tree is unchecked, and any other box elsewhere is as it was.
pub on_changed-decide :
    (tree : Tree) (selected : List Text) (boxes : List Box)
    → on_changed tree selected boxes ≡ map (decide tree selected) boxes
unfolding on_changed
on_changed-decide tree selected boxes =
    set_checked_lem selected (map (uncheck tree) boxes)
    ∙ map-map_eq (check_all selected) (uncheck tree) (decide tree selected) boxes
        (decide_lem tree selected)
