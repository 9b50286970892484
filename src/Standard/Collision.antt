-- ===== src/Standard/Collision.antt =====
-- The id of a row that is added after another one was removed.
use Prim.Native.Nat.{ℕ, suc}
use mathlib.Core.Path.{◌≡◌, refl, sym, ap, ◌∙◌}
use mathlib.Core.Logic.{inl, inr}
use mathlib.Core.Bool.{Bool, true, false}
use mathlib.Core.Option.{some}
use mathlib.Core.List.{List, [], ◌∷◌, ◌++◌, append_assoc}
use inroa.Base.{
  Text, codes, length, int_text, increment, decrement, increment-decrement, Bool-cases,
  Option-cases, text_eq,
}
use inroa.Page.{
  set_on_click, Element, Page, all_elements, append_row, lookup_field, find_id, find_field,
  is_below, update_page,
}
use inroa.Page.Elements.{set_on_click-KeepsId, all_elements-append_row, find_id-update_page}
use inroa.Update.{Transport}
use inroa.Standard.{State}
use inroa.Standard.Handlers.{first_html, second_html, new_row, adiciona_atributo}
use inroa.Standard.Events.{remove_event, adiciona_event, handle, step, run_events}
use inroa.Standard.Deletion.{without_row, remove_linha-state}

find_id-append :
    (id : Text) (xs ys : List Element) (x : Element)
    → find_id id xs ≡ some x
    → find_id id (xs ++ ys) ≡ some x
unfolding find_id
find_id-append id [] ys x e = cc
find_id-append id (z ∷ xs) ys x e = elim (Bool-cases (text_eq z.id id)) [
  | inl here ↦ let same = rw (find_id, here) at e in rw (find_id, here) same
  | inr later ↦ rw (find_id, later) (find_id-append id xs ys x (rw (find_id, later) at e))
]

-- A field that some element has is found, in this element or an earlier one.
find_field-append :
    (id : Text) (xs : List Element) (x : Element) (ys : List Element) (v : Text)
    → lookup_field id x.fields ≡ some v
    → (r : Text × Element) × (find_field id (xs ++ x ∷ ys) ≡ some r)
unfolding find_field
find_field-append id [] x ys v e = ((v, x), rw (find_field, e) refl)
find_field-append id (z ∷ xs) x ys v e = elim (Option-cases (lookup_field id z.fields)) [
  | inl without ↦
      let (r, later) = find_field-append id xs x ys v e in (r, rw (find_field, without) later)
  | inr (w, here) ↦ ((w, z), rw (find_field, here) refl)
]

find_field-second :
    (id : Text) (xs : List Element) (x y : Element) (v : Text)
    → lookup_field id y.fields ≡ some v
    → (r : Text × Element) × (find_field id (xs ++ x ∷ y ∷ []) ≡ some r)
find_field-second id xs x y v e =
    let (r, found) = find_field-append id (xs ++ x ∷ []) y [] v e in
    (r, ap (find_field id) (sym (append_assoc xs (x ∷ []) (y ∷ []))) ∙ found)

-- The two cells of a new row.
abbrev first_cell : Text → ℕ → Element
first_cell linha n = record {
  node = n;
  id = codes "result" ++ linha;
  inner_html = first_html linha;
  fields = (codes "inputNovo" ++ linha, []) ∷ [];
  on_click = false;
}

abbrev second_cell : Text → ℕ → Element
second_cell linha n = record {
  node = n;
  id = (codes "result" ++ linha) ++ codes "D";
  inner_html = second_html;
  fields = (codes "salvar", []) ∷ (codes "removeLinha", []) ∷ [];
  on_click = false;
}

module _ (has : Transport → Bool) (fields_of : Text → List (Text × Text)) where
  -- A new row always has a link to save it, or an earlier one does.
  salvar_found :
      (linha : Text) (page : Page)
      → (r : Text × Element) × (find_field
            (codes "salvar")
            (all_elements (append_row (new_row linha) page))
          ≡ some r)
  unfolding new_row
  salvar_found linha page =
      let (r, found) =
        find_field-second (codes "salvar") (all_elements page) (first_cell linha page.next_node)
          (second_cell linha (suc page.next_node)) [] refl in
      (r, ap (find_field (codes "salvar")) (all_elements-append_row (new_row linha) page) ∙ found)

  adiciona-state :
      (id_padrao : Text) (s : State)
      → s.page.table_id ≡ codes "tabela"
      → (node : ℕ) × (step has fields_of (adiciona_event id_padrao) s ≡ record s {
        linha_js = increment s.linha_js;
        page =
            update_page node set_on_click
              (append_row (new_row (int_text (increment s.linha_js))) s.page);
        id_div_atributo = codes "result" ++ int_text (increment s.linha_js);
        input_novo_atributo = codes "inputNovo" ++ int_text (increment s.linha_js);
        padrao_met = id_padrao;
      })
  unfolding adiciona_atributo
  adiciona-state id_padrao s table =
      let (r, e) = salvar_found (int_text (increment s.linha_js)) s.page in
      let named : text_eq (codes "tabela") s.page.table_id ≡ true =
        ap (text_eq (codes "tabela")) table in
      (r.1.node, rw (step, handle, adiciona_atributo, named, e) refl)

  -- If the page has the table, and a row of it is removed while the page goes on to have an element
  -- with the id that `linhaJS` stands for, then the next row that is added gets this id as well: the
  -- element that is found for it, to show the answer when it is saved, is the old one.
  pub adiciona_atributo-collision :
      (linha : ℕ) (id_padrao : Text) (x : Element) (s : State)
      → s.page.table_id ≡ codes "tabela"
      → is_below linha (length s.page.rows) ≡ true
      → find_id (codes "result" ++ int_text s.linha_js) (all_elements (without_row linha s.page))
        ≡ some x
      → let after : State =
          run_events has fields_of (remove_event linha ∷ adiciona_event id_padrao ∷ []) s in
        (after.id_div_atributo ≡ codes "result" ++ int_text s.linha_js)
        × (y : Element) × (find_id after.id_div_atributo (all_elements after.page) ≡ some y)
        × (y.node ≡ x.node)
  unfolding run_events without_row
  adiciona_atributo-collision linha id_padrao x s table below e =
      let removed : State = record s {
        page = without_row linha s.page;
        linha_js = decrement s.linha_js;
      } in
      let (node, added) = adiciona-state id_padrao removed table in
      let reached : run_events has fields_of (remove_event linha ∷ adiciona_event id_padrao ∷ []) s
          ≡ record s {
            linha_js = s.linha_js;
            page =
                update_page node set_on_click
                  (append_row (new_row (int_text s.linha_js)) removed.page);
            id_div_atributo = codes "result" ++ int_text s.linha_js;
            input_novo_atributo = codes "inputNovo" ++ int_text s.linha_js;
            padrao_met = id_padrao;
          } =
        ap (step has fields_of (adiciona_event id_padrao))
          (remove_linha-state has fields_of linha s table below)
        ∙ (rw (increment-decrement s.linha_js) at added) in
      let old : find_id (codes "result" ++ int_text s.linha_js)
            (all_elements (append_row (new_row (int_text s.linha_js)) removed.page))
          ≡ some x =
        ap (find_id (codes "result" ++ int_text s.linha_js))
          (all_elements-append_row (new_row (int_text s.linha_js)) removed.page)
        ∙ find_id-append _ (all_elements removed.page) _ x e in
      let (y, found, same) = find_id-update_page node set_on_click _ _ x set_on_click-KeepsId old in
      rw reached (refl, y, found, same)
