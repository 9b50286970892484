-- ===== src/Trees/Tests.antt =====
-- Two federations and a repository.
use mathlib.Core.Path.{◌≡◌, refl}
use mathlib.Core.Bool.{Bool, true, false}
use mathlib.Core.List.{List, [], ◌∷◌, map}
use inroa.Base.{Text, codes}
use inroa.Trees.{Tree, federations, repositories, Box, Form, on_changed, on_submit}
use inroa.Trees.Runs.{last_selection, run_changed, run_changed-shown}

abbrev box : Tree → Text → Bool → Box
box tree id checked = record { tree = tree; ancestors = id ∷ []; checked = checked }

abbrev boxes : List Box
boxes =
    box federations (codes "f1") true
    ∷ box federations (codes "f2") false
    ∷ box repositories (codes "r1") true
    ∷ []

run_changed-shown_example :
    run_changed
      (record { tree = federations; selected = codes "f1" ∷ [] }
        ∷ record { tree = federations; selected = codes "f2" ∷ [] }
        ∷ [])
      boxes
    ≡ box federations (codes "f1") false
      ∷ box federations (codes "f2") true
      ∷ box repositories (codes "r1") true
      ∷ []
unfolding last_selection
run_changed-shown_example =
    run_changed-shown
      (record { tree = federations; selected = codes "f1" ∷ [] }
        ∷ record { tree = federations; selected = codes "f2" ∷ [] }
        ∷ [])
      boxes
      ((λ _. refl, (λ _. refl, tt)), ((λ _. refl, (λ _. refl, tt)), ((λ e. cc, (λ e. cc, tt)), tt)))

-- The last selection of a tree counts.
on_changed_runs :
    on_changed federations (codes "f1" ∷ []) (on_changed federations (codes "f2" ∷ []) boxes)
    ≡ on_changed federations (codes "f1" ∷ []) boxes
unfolding on_changed
on_changed_runs = refl

abbrev form : Form
form = record { boxes = boxes; is_tree_shown = true; is_age_enabled = true }

on_submit_runs : (on_submit (λ b. b) (λ b. codes "f2" ∷ []) form) ≡ record form {
  boxes = map (λ (b : Box). record b { checked = true }) boxes;
  is_tree_shown = false;
}
unfolding on_submit
on_submit_runs = refl
