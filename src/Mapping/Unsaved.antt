-- ===== src/Mapping/Unsaved.antt =====
-- A row that is added while another one is not saved yet.
pub mod Row
pub mod Saving
use Prim.Native.Nat.{ℕ, zero, suc, ◌≤◌, ◌<◌}
use mathlib.Core.Path.{◌≡◌, refl, sym, ap, ◌∙◌}
use mathlib.Core.Bool.{Bool, true, false}
use mathlib.Core.Option.{none, some}
use mathlib.Core.List.{List, [], ◌∷◌, ◌++◌, map, map-append, append_assoc}
use native.Mathlib.Omega.{arith}
use inroa.Base.{Text, codes, length, int_text, increment, text_eq, text_eq_self, All, All-append}
use inroa.Page.{
  Element, all_elements, append_row, find_field, find_id, number_nodes, set_on_click, update_node,
  update_page,
}
use inroa.Page.Elements.{all_elements-append_row, find_field-append, update_page-all_elements}
use inroa.Page.Links.{find_id-append_none, find_field-All, update_node-above}
use inroa.Update.{Transport, open_ajax}
use inroa.Mapping.{Request, State, mostrar, by_id, send}
use inroa.Mapping.Handlers.{processo_link, processo}
use inroa.Mapping.Rows.{
  div, sem_javascript, count_up, new_row, row_class, set_variables, hook, add_map, adiciona_map,
}
use inroa.Mapping.Events.{adiciona_event, handle, step}

-- The requests for the two selects of a new row.
abbrev pub destino_request : Text → ℕ → Request
destino_request total node = record {
  target = some node;
  acao = mostrar;
  url = processo_link (codes "destino" ++ total) (codes "0") (codes "comboBox") [] [] [];
}

abbrev pub origem_request : Text → Text → ℕ → Request
origem_request total padrao node = record {
  target = some node;
  acao = mostrar;
  url = processo_link (codes "result" ++ total) padrao (codes "comboOrigem") [] [] [];
}

-- The two cells of a new row with an id.
abbrev result_cell : Text → ℕ → Element
result_cell total node = record (div (codes "result" ++ total) sem_javascript) { node = node }

abbrev destino_cell : Text → ℕ → Element
destino_cell total node = record (div (codes "destino" ++ total) sem_javascript) { node = node }

find_id-result :
    (total : Text) (node linha_real : ℕ) (cl : Text)
    → find_id (codes "result" ++ total) (number_nodes node (new_row total linha_real cl) ++ [])
      ≡ some (result_cell total node)
unfolding find_id new_row
find_id-result total node linha_real cl = rw (text_eq_self total) refl

find_id-destino :
    (total : Text) (node linha_real : ℕ) (cl : Text)
    → find_id (codes "destino" ++ total) (number_nodes node (new_row total linha_real cl) ++ [])
      ≡ some (destino_cell total (suc node))
unfolding find_id new_row
find_id-destino total node linha_real cl = rw (text_eq_self total) refl

module _ (has : Transport → Bool) (fields_of : Text → List (Text × Text)) (linha_real : ℕ)
    (padrao tipo w : Text) (x : Element) (s : State) where
  abbrev pub total : Text
  total = int_text (increment s.totals)

  abbrev pub cells : List Element
  cells = new_row total linha_real (row_class (count_up s))

  -- The state when the row has been added.
  abbrev pub added : State
  added = record s {
    totals = increment s.totals;
    page = update_page x.node set_on_click (append_row cells s.page);
    requests =
        s.requests
        ++ destino_request total (suc s.page.next_node)
          ∷ origem_request total padrao s.page.next_node
          ∷ [];
    id_origem = codes "atribOrigem";
    id_destino = codes "atrb" ++ (codes "destino" ++ total);
    padrao_met = padrao;
    tipo_mapeamento = tipo;
    id_origem_comp = [];
    id_destino_comp = [];
  }

  pub adiciona_map-added :
      (t : Transport)
      → open_ajax has ≡ some t
      → s.page.table_id ≡ codes "tabela"
      → find_field (codes "salvar") (all_elements s.page) ≡ some (w, x)
      → by_id (codes "result" ++ total) s.page ≡ none
      → by_id (codes "destino" ++ total) s.page ≡ none
      → step has fields_of (adiciona_event linha_real padrao tipo) s ≡ added
  unfolding adiciona_map add_map processo send by_id count_up new_row
  adiciona_map-added t opens table salvar no_result no_destino =
      let named : text_eq (codes "tabela") s.page.table_id ≡ true =
        ap (text_eq (codes "tabela")) table in
      let page = append_row cells s.page in
      let elements = all_elements-append_row cells s.page in
      let result : find_id (codes "result" ++ total) (all_elements page)
          ≡ some (result_cell total s.page.next_node) =
        ap (find_id (codes "result" ++ total)) elements
        ∙ (find_id-append_none (codes "result" ++ total) (all_elements s.page) _ no_result
            ∙ find_id-result total s.page.next_node linha_real (row_class (count_up s))) in
      let destino : find_id (codes "destino" ++ total) (all_elements page)
          ≡ some (destino_cell total (suc s.page.next_node)) =
        ap (find_id (codes "destino" ++ total)) elements
        ∙ (find_id-append_none (codes "destino" ++ total) (all_elements s.page) _ no_destino
            ∙ find_id-destino total s.page.next_node linha_real (row_class (count_up s))) in
      let link : find_field (codes "salvar") (all_elements page) ≡ some (w, x) =
        ap (find_field (codes "salvar")) elements
        ∙ find_field-append (codes "salvar") (all_elements s.page) _ (w, x) salvar in
      rw (step, handle, adiciona_map, named, add_map, processo, send, opens, destino, result, link)
        (ap (λ (r : List Request). record added { requests = r })
          (append_assoc s.requests (destino_request total (suc s.page.next_node) ∷ [])
            (origem_request total padrao s.page.next_node ∷ [])))
