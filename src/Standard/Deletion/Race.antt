-- ===== src/Standard/Deletion/Race.antt =====
-- Two deletions that are confirmed before the server answers the first.
use Prim.Native.Nat.{ℕ, zero, suc}
use mathlib.Core.Path.{◌≡◌, refl, sym, ap, ◌∙◌}
use mathlib.Core.Bool.{Bool, true}
use mathlib.Core.Option.{some}
use mathlib.Core.List.{List, [], ◌∷◌, ◌++◌}
use inroa.Base.{get_elem?-second, get_elem?-third, Text, codes, length, get_elem?}
use inroa.Page.{Element, all_elements, find_id, is_below, remove_at, set_html}
use inroa.Page.Rows.{update_page-rows}
use inroa.Page.Editing.{shown}
use inroa.Update.{Transport, open_ajax}
use inroa.Standard.{Request, State}
use inroa.Standard.Events.{Event, confirma_event, change_event, step, run_events, run_events-append}
use inroa.Standard.Deletion.{without_row, deletion, confirma-state, answer, answer-step}

is_below-remove_at :
    {A : Type 0} (i : ℕ) (xs : List A)
    → is_below (suc i) (length xs) ≡ true
    → (is_below i (length xs) ≡ true) × (is_below i (length (remove_at i xs)) ≡ true)
unfolding remove_at
is_below-remove_at i [] h = cc
is_below-remove_at zero (x ∷ []) h = cc
is_below-remove_at zero (x ∷ y ∷ xs) h = (refl, refl)
is_below-remove_at (suc i) (x ∷ xs) h = is_below-remove_at i xs h

module _ (has : Transport → Bool) (fields_of : Text → List (Text × Text)) where
  -- Two answers, when the variable `linhaApagar` counts the same row for both.
  two_answers :
      (i k : ℕ) (id id' id_resultado text text' : Text) (node : ℕ) (s : State)
      → get_elem? s.requests i ≡ some (deletion id id_resultado node)
      → get_elem? s.requests k ≡ some (deletion id' id_resultado node)
      → s.page.table_id ≡ codes "tabela"
      → is_below (suc s.linha_apagar) (length s.page.rows) ≡ true
      → (run_events has fields_of
          (change_event i (answer text) ∷ change_event k (answer text') ∷ [])
          s).page
        ≡ without_row s.linha_apagar (
            shown fields_of node text'
              (without_row s.linha_apagar (shown fields_of node text s.page)))
  unfolding run_events without_row
  two_answers i k id id' id_resultado text text' node s sent sent' table below =
      let rows = update_page-rows node (set_html fields_of text) s.page in
      let bounds =
        is_below-remove_at s.linha_apagar (shown fields_of node text s.page).rows
          (ap (is_below (suc s.linha_apagar)) rows.1 ∙ below) in
      ap (λ u. (step has fields_of (change_event k (answer text')) u).page)
        (answer-step has fields_of i id id_resultado text node s sent table
          (ap (is_below s.linha_apagar) (sym rows.1) ∙ bounds.0))
      ∙ ap State.page (
          answer-step has fields_of k id' id_resultado text' node _ sent' (rows.0 ∙ table) bounds.1)

  -- The state after both confirmations.
  both_confirmed :
      (t : Transport) (id id' id_resultado : Text) (linha linha' : ℕ) (x : Element) (s : State)
      → open_ajax has ≡ some t
      → find_id id_resultado (all_elements s.page) ≡ some x
      → run_events has fields_of
          (confirma_event true id id_resultado linha
            ∷ confirma_event true id' id_resultado linha'
            ∷ [])
          s
        ≡ record s {
          requests =
              (s.requests ++ deletion id id_resultado x.node ∷ [])
              ++ deletion id' id_resultado x.node ∷ [];
          linha_apagar = linha';
        }
  unfolding run_events
  both_confirmed t id id' id_resultado linha linha' x s opens found =
      ap (step has fields_of (confirma_event true id' id_resultado linha'))
        (confirma-state has fields_of t id id_resultado linha x s opens found)
      ∙ confirma-state has fields_of t id' id_resultado linha' x _ opens found

  -- When the browser can send requests, the page has the table and the element for the results, and
  -- below the row of the second deletion there is another one: if two deletions are confirmed before
  -- the first answer with status 200 comes, both answers remove the row at the second deletion's
  -- index, whichever of the two comes first and whatever row the first deletion was for.
  pub confirma_exclusao-race :
      (t : Transport) (id id' id_resultado text text' : Text) (linha linha' : ℕ) (x : Element)
      (s : State)
      → open_ajax has ≡ some t
      → find_id id_resultado (all_elements s.page) ≡ some x
      → s.page.table_id ≡ codes "tabela"
      → is_below (suc linha') (length s.page.rows) ≡ true
      → ((run_events has fields_of
            (confirma_event true id id_resultado linha
              ∷ confirma_event true id' id_resultado linha'
              ∷ change_event (length s.requests) (answer text)
              ∷ change_event (suc (length s.requests)) (answer text')
              ∷ [])
            s).page
          ≡ without_row linha' (
              shown fields_of x.node text'
                (without_row linha' (shown fields_of x.node text s.page))))
        × ((run_events has fields_of
              (confirma_event true id id_resultado linha
                ∷ confirma_event true id' id_resultado linha'
                ∷ change_event (suc (length s.requests)) (answer text)
                ∷ change_event (length s.requests) (answer text')
                ∷ [])
              s).page
            ≡ without_row linha' (
                shown fields_of x.node text'
                  (without_row linha' (shown fields_of x.node text s.page))))
  confirma_exclusao-race t id id' id_resultado text text' linha linha' x s opens found table below =
      (
        ap State.page (after_both _)
            ∙ two_answers n (suc n) id id' id_resultado text text' x.node _ first second table
                below,
        ap State.page (after_both _)
            ∙ two_answers (suc n) n id' id id_resultado text text' x.node _ second first table
                below,
      )
    where
      n : ℕ
      n = length s.requests

      one : Request
      one = deletion id id_resultado x.node

      two : Request
      two = deletion id' id_resultado x.node

      first : get_elem? ((s.requests ++ one ∷ []) ++ two ∷ []) n ≡ some one
      first = get_elem?-second s.requests one two

      second : get_elem? ((s.requests ++ one ∷ []) ++ two ∷ []) (suc n) ≡ some two
      second = get_elem?-third s.requests one two

      after_both :
          (answers : List Event)
          → run_events has fields_of
              (confirma_event true id id_resultado linha
                ∷ confirma_event true id' id_resultado linha'
                ∷ answers)
              s
            ≡ run_events has fields_of answers (record s {
              requests = (s.requests ++ one ∷ []) ++ two ∷ [];
              linha_apagar = linha';
            })
      after_both answers =
          run_events-append has fields_of
            (confirma_event true id id_resultado linha
              ∷ confirma_event true id' id_resultado linha'
              ∷ [])
            answers s
          ∙ ap (run_events has fields_of answers)
              (both_confirmed t id id' id_resultado linha linha' x s opens found)
