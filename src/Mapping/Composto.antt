-- ===== src/Mapping/Composto.antt =====
-- A complementary mapping that is begun and taken back.
use Prim.Native.Nat.{ℕ, suc, ◌<◌}
use mathlib.Core.Path.{◌≡◌, refl, sym, ap, ◌∙◌}
use mathlib.Core.Logic.{inl, inr}
use mathlib.Core.Bool.{Bool, true}
use mathlib.Core.Option.{some}
use mathlib.Core.List.{List, [], ◌∷◌, ◌++◌, map}
use native.Mathlib.Omega.{arith}
use inroa.Base.{Text, codes, length, ok, text_eq, ◌==◌, ==_iff, Bool-cases, if◌then◌else◌}
use inroa.Page.{
  set_on_click, Element, Page, all_elements, find_field, append_row, update_page, delete_row,
  remove_at,
}
use inroa.Page.Elements.{set_on_click-KeepsId, all_elements-append_row, find_field-append}
use inroa.Page.Ids.{
  ids, ids-update_page, ids-append_row, map-remove_at, remove_at-append, remove_at-length,
  is_below-lt,
}
use inroa.Page.Rows.{length-map, append_row-rows, update_page-rows, delete_row-table}
use inroa.Update.{Transport, open_ajax}
use inroa.Mapping.{Request, State, send}
use inroa.Mapping.Handlers.{processo}
use inroa.Mapping.Rows.{
  composto_row, set_complementares, set_mapeamento_composto, remove_complementar,
}
use inroa.Mapping.Table.{composto_ids}
use inroa.Mapping.Events.{composto_event, remove_complementar_event, handle, step, run_events}

module _ (has : Transport → Bool) (fields_of : Text → List (Text × Text)) where
  composto-state :
      (t : Transport) (linha : ℕ) (r : Text × Element) (s : State)
      → open_ajax has ≡ some t
      → s.page.table_id ≡ codes "tabela"
      → find_field (codes "salvar") (all_elements s.page) ≡ some r
      → (sent : List Request) × (step has fields_of (composto_event linha) s
          ≡ set_complementares linha (record s {
            linha_composto = suc linha;
            page = update_page r.1.node set_on_click (append_row (composto_row linha) s.page);
            requests = sent;
          }))
  unfolding set_mapeamento_composto processo send set_complementares
  composto-state t linha r s opens table found =
      let named : text_eq (codes "tabela") s.page.table_id ≡ true =
        ap (text_eq (codes "tabela")) table in
      let longer : find_field (codes "salvar")
            (all_elements (append_row (composto_row linha) s.page))
          ≡ some r =
        ap (find_field (codes "salvar")) (all_elements-append_row (composto_row linha) s.page)
        ∙ find_field-append (codes "salvar") (all_elements s.page) _ r found in
      (
        (step has fields_of (composto_event linha) s).requests,
        rw (step, handle, set_mapeamento_composto, named, processo, send, opens, longer) refl,
      )

  remove_complementar-state :
      (s : State)
      → s.page.table_id ≡ codes "tabela"
      → s.linha_composto < length s.page.rows
      → step has fields_of remove_complementar_event s ≡ record s {
        page = record s.page { rows = remove_at s.linha_composto s.page.rows };
        id_origem_comp = [];
        id_destino_comp = [];
      }
  unfolding remove_complementar
  remove_complementar-state s table below =
      let deleted : delete_row (codes "tabela") s.linha_composto s.page
          ≡ ok (record s.page { rows = remove_at s.linha_composto s.page.rows }) =
        ap (λ name. delete_row name s.linha_composto s.page) (sym table)
        ∙ delete_row-table s.linha_composto s.page (is_below-lt _ _ below) in
      rw (step, handle, remove_complementar, deleted) refl

-- What is left of the rows when one row is taken out.
rows_left :
    (i : ℕ) (rows : List (List Text)) (row : List Text)
    → i < length rows
    → remove_at (suc i) (rows ++ row ∷ [])
      ≡ (if suc i == length rows then rows else remove_at (suc i) rows ++ row ∷ [])
rows_left i rows row h = elim (Bool-cases (suc i == length rows)) [
  | inl last ↦
      let e : suc i ≡ length rows = (==_iff (suc i) (length rows)).0 last in
      rw last (ap (λ n. remove_at n (rows ++ row ∷ [])) e ∙ remove_at-length rows row)
  | inr other ↦
      rw other (
        remove_at-append (suc i) rows (row ∷ []) (is_below-lt (suc i) (length rows) (ground arith)))
]

module _ (has : Transport → Bool) (fields_of : Text → List (Text × Text)) where
  -- If the browser can send requests, and the page has the table, the row of the mapping and a link to
  -- save: a complementary mapping that is begun for this row and taken back leaves the rows as they
  -- were only if this row is the last one. Otherwise the row after it is removed, and that of the
  -- complementary mapping stays.
  pub remove_complementar-composto :
      (t : Transport) (linha : ℕ) (r : Text × Element) (s : State)
      → open_ajax has ≡ some t
      → s.page.table_id ≡ codes "tabela"
      → find_field (codes "salvar") (all_elements s.page) ≡ some r
      → linha < length s.page.rows
      → ids
          (run_events has fields_of (composto_event linha ∷ remove_complementar_event ∷ []) s).page
        ≡ (if suc linha == length s.page.rows
            then ids s.page
            else remove_at (suc linha) (ids s.page) ++ composto_ids linha ∷ [])
  unfolding run_events set_complementares composto_row
  remove_complementar-composto t linha r s opens table found h =
      let (sent, begun) = composto-state has fields_of t linha r s opens table found in
      let longer = append_row (composto_row linha) s.page in
      let added = append_row-rows (composto_row linha) s.page in
      let hooked = update_page-rows r.1.node set_on_click longer in
      let page : Page = update_page r.1.node set_on_click longer in
      let all : ids page ≡ ids s.page ++ composto_ids linha ∷ [] =
        ids-update_page r.1.node set_on_click longer set_on_click-KeepsId
        ∙ ids-append_row (composto_row linha) s.page in
      let count = length-map (map Element.id) s.page.rows in
      ap (λ (u : State). ids (step has fields_of remove_complementar_event u).page) begun
      ∙ (ap (λ (u : State). ids u.page)
            (remove_complementar-state has fields_of _ (hooked.0 ∙ (added.0 ∙ table))
              (omega (arith, hooked.1, added.1)))
          ∙ (map-remove_at (map Element.id) (suc linha) page.rows
              ∙ (ap (remove_at (suc linha)) all
                  ∙ (rows_left linha (ids s.page) (composto_ids linha) (omega (arith, count))
                      ∙ ap
                          (λ n.
                            if suc linha == n
                            then ids s.page
                            else remove_at (suc linha) (ids s.page) ++ composto_ids linha ∷ [])
                          count))))
