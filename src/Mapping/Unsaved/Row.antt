-- ===== src/Mapping/Unsaved/Row.antt =====
-- What stays true after a row was added while another one is not saved yet.
use Prim.Native.Nat.{ℕ, suc, ◌≤◌}
use mathlib.Core.Path.{◌≡◌, refl, sym, ap, subst, ◌∙◌}
use mathlib.Core.Logic.{◌⊎◌, inl, inr}
use mathlib.Core.Bool.{Bool, false}
use mathlib.Core.Option.{some}
use mathlib.Core.List.{List, [], ◌∷◌, ◌++◌}
use inroa.Base.{Text, codes, length, get_elem?, get_elem?-append-length, All, arith}
use inroa.Page.{Element, all_elements, find_field, set_html, type_in, update_page}
use inroa.Page.Extended.{IsNumbered, IsExtended, append_row-IsExtended, update_page-IsExtended}
use inroa.Update.{Transport, Change}
use inroa.Mapping.{State, mostrar}
use inroa.Mapping.Rows.{new_row}
use inroa.Mapping.Events.{Event, type_event, change_event, handle, step, run_events}
use inroa.Mapping.Answers.{on_ready_state_change-mostrar}
use inroa.Mapping.Unsaved.{added, cells}

-- A change of one of the two requests of a new row, or something that the user types in an element
-- of this row.
abbrev pub IsOfRow : ℕ → ℕ → Event → Type 0
IsOfRow sent node (change_event i change) = (i ≡ sent) ⊎ (i ≡ suc sent)
IsOfRow sent node (type_event n id value) = node ≤ n
IsOfRow sent node _ = ⊥

get_elem?-append-suc :
    {A : Type 0} (xs ys : List A) (y z : A)
    → get_elem? (xs ++ y ∷ (z ∷ ys)) (suc (length xs)) ≡ some z
get_elem?-append-suc [] ys y z = refl
get_elem?-append-suc (x ∷ xs) ys y z = get_elem?-append-suc xs ys y z

module _ (has : Transport → Bool) (fields_of : Text → List (Text × Text)) (linha_real : ℕ)
    (padrao tipo w : Text) (x : Element) (s : State) where
  abbrev pub start : State
  start = added has fields_of linha_real padrao tipo w x s

  -- What holds after the row was added.
  pub record IsUnsaved (u : State) : Type 0 where
    pub rest : u ≡ record start { page = u.page }
    pub extended : IsExtended s.page x u.page

  module _ (numbered : IsNumbered s.page) where
    pub start-IsUnsaved :
        find_field (codes "salvar") (all_elements s.page) ≡ some (w, x) → IsUnsaved start
    unfolding new_row
    start-IsUnsaved e = record {
      rest = refl;
      extended =
          append_row-IsExtended s.page x numbered (codes "salvar") w
            (cells has fields_of linha_real padrao tipo w x s) e (refl, (refl, (refl, (refl, tt))));
    }

    -- A change of an element of the new row that sets no handler.
    update-IsUnsaved :
        (node : ℕ) (f : Element → Element) (u : State)
        → s.page.next_node ≤ node
        → ((z : Element) → z.on_click ≡ false → (f z).on_click ≡ false)
        → IsUnsaved u
        → IsUnsaved (record u { page = update_page node f u.page })
    update-IsUnsaved node f u le keeps unsaved = record {
      rest = ap (λ (t : State). record t { page = update_page node f u.page }) unsaved.rest;
      extended = update_page-IsExtended s.page x numbered node f u.page le keeps unsaved.extended;
    }

    mostrar-IsUnsaved :
        (i node : ℕ) (url : Text) (change : Change) (u : State)
        → get_elem? start.requests i
          ≡ some (record { target = some node; acao = mostrar; url = url })
        → s.page.next_node ≤ node
        → IsUnsaved u
        → IsUnsaved (step has fields_of (change_event i change) u)
    mostrar-IsUnsaved i node url change u sent le unsaved =
        let here : get_elem? u.requests i
            ≡ some (record { target = some node; acao = mostrar; url = url }) =
          ap (λ (t : State). get_elem? t.requests i) unsaved.rest ∙ sent in
        rw (step, handle, here)
          (elim (on_ready_state_change-mostrar fields_of node url change u) [
            | inl same ↦ subst IsUnsaved (sym same) unsaved
            | inr (h, e) ↦
                subst IsUnsaved (sym e)
                  (update-IsUnsaved node (set_html fields_of h) u le (λ z off. refl) unsaved)
          ])

    event-IsUnsaved :
        (event : Event) (u : State)
        → IsOfRow (length s.requests) s.page.next_node event
        → IsUnsaved u
        → IsUnsaved (step has fields_of event u)
    event-IsUnsaved (change_event i change) u (inl first) unsaved =
        mostrar-IsUnsaved i (suc s.page.next_node) _ change u
          (ap (get_elem? start.requests) first ∙ get_elem?-append-length s.requests _ _)
          (omega arith) unsaved
    event-IsUnsaved (change_event i change) u (inr second) unsaved =
        mostrar-IsUnsaved i s.page.next_node _ change u
          (ap (get_elem? start.requests) second ∙ get_elem?-append-suc s.requests [] _ _)
          (omega arith) unsaved
    event-IsUnsaved (type_event node id value) u le unsaved =
        update-IsUnsaved node (type_in id value) u le (λ z off. off) unsaved
    event-IsUnsaved _ u h unsaved = absurd h

    pub events-IsUnsaved :
        (events : List Event) (u : State)
        → All (IsOfRow (length s.requests) s.page.next_node) events
        → IsUnsaved u
        → IsUnsaved (run_events has fields_of events u)
    unfolding run_events
    events-IsUnsaved [] u h unsaved = unsaved
    events-IsUnsaved (event ∷ events) u (h, hs) unsaved =
        events-IsUnsaved events (step has fields_of event u) hs (event-IsUnsaved event u h unsaved)
