-- ===== src/Trees/Runs.antt =====
-- Changes of the two trees' selections, in any order.
use mathlib.Core.Path.{◌≡◌, refl, sym, ap, ◌∙◌}
use mathlib.Core.Logic.{inl, inr}
use mathlib.Core.Bool.{Bool, true, false, ◌||◌}
use mathlib.Core.Option.{Option, none, some}
use mathlib.Core.List.{List, [], ◌∷◌, map}
use inroa.Base.{
  map-map_eq, map_fixed, Text, if◌then◌else◌, Bool-cases, All, All-every, All-mono, map_ext,
}
use inroa.Trees.{Tree, tree_eq, Box, on_changed}
use inroa.Trees.Selection.{is_selected, decide, on_changed-decide}

-- The tree, and what is selected in it.
pub record Changed : Type 0 where
  pub tree : Tree
  pub selected : List Text

unfoldable pub run_changed : List Changed → List Box → List Box
run_changed [] boxes = boxes
run_changed (change ∷ changes) boxes =
    run_changed changes (on_changed change.tree change.selected boxes)

-- What is selected in a tree after the changes, if one of them is of this tree.
unfoldable pub last_selection : Tree → List Changed → Option (List Text)
last_selection tree [] = none
last_selection tree (change ∷ changes) = elim (last_selection tree changes) [
  | some selected ↦ some selected
  | none ↦ if tree_eq tree change.tree then some change.selected else none
]

abbrev pub show : Option (List Text) → Box → Box
show none box = box
show (some selected) box = record box { checked = is_selected selected box }

-- The box as the last selection of its tree has it.
abbrev pub shown : List Changed → Box → Box
shown changes box = show (last_selection box.tree changes) box

-- A tree selects nothing around a box that is not in it.
abbrev pub IsOwn : Box → Changed → Type 0
IsOwn box change = is_selected change.selected box ≡ true → tree_eq box.tree change.tree ≡ true

abbrev decide_all : List Changed → Box → Box
decide_all [] box = box
decide_all (change ∷ changes) box = decide_all changes (decide change.tree change.selected box)

or_false : (b : Bool) → (b || false) ≡ b
or_false true = refl
or_false false = refl

run_changed-decide_all :
    (changes : List Changed) (boxes : List Box)
    → run_changed changes boxes ≡ map (decide_all changes) boxes
unfolding run_changed
run_changed-decide_all [] boxes = sym (
    map_fixed (decide_all []) boxes
      (All-every (λ box. decide_all [] box ≡ box) (λ box. refl) boxes))
run_changed-decide_all (change ∷ changes) boxes =
    ap (run_changed changes) (on_changed-decide change.tree change.selected boxes)
    ∙ run_changed-decide_all changes (map (decide change.tree change.selected) boxes)
    ∙ map-map_eq (decide_all changes) (decide change.tree change.selected)
        (decide_all (change ∷ changes)) boxes (λ box. refl)

show-decide :
    (change : Changed) (last : Option (List Text)) (box : Box)
    → IsOwn box change
    → show last (decide change.tree change.selected box)
      ≡ show
          (elim last [
            | some selected ↦ some selected
            | none ↦ if tree_eq box.tree change.tree then some change.selected else none
          ])
          box
show-decide change (some selected) box own = refl
show-decide change none box own = elim (Bool-cases (tree_eq box.tree change.tree)) [
  | inl within ↦
      rw within
        (ap (λ (c : Bool). record box { checked = c }) (or_false (is_selected change.selected box)))
  | inr without ↦ elim (Bool-cases (is_selected change.selected box)) [
    | inl selected ↦ cc (own selected)
    | inr other ↦ rw (without, other) refl
  ]
]

decide_all-shown :
    (changes : List Changed) (box : Box)
    → All (IsOwn box) changes
    → decide_all changes box ≡ shown changes box
unfolding last_selection
decide_all-shown [] box own = refl
decide_all-shown (change ∷ changes) box (own, owns) =
    decide_all-shown changes (decide change.tree change.selected box) owns
    ∙ show-decide change (last_selection box.tree changes) box own

-- If no tree selects an element around a box that is not in it, then after any changes of the
-- selections, in any order, a box is checked exactly if the last selection of its own tree has an
-- element around it, and a box whose tree has not changed is as it was.
pub run_changed-shown :
    (changes : List Changed) (boxes : List Box)
    → All (λ box. All (IsOwn box) changes) boxes
    → run_changed changes boxes ≡ map (shown changes) boxes
run_changed-shown changes boxes owns =
    run_changed-decide_all changes boxes
    ∙ map_ext (decide_all changes) (shown changes) boxes (
        All-mono (λ box. All (IsOwn box) changes)
          (λ box. decide_all changes box ≡ shown changes box) boxes (decide_all-shown changes) owns)
