-- ===== src/Standard/Deletion.antt =====
-- Deletions of attributes: `confirmaExclusao`, the answer of the server, and the row that goes away.
pub mod Race
use Prim.Native.Nat.{ℕ, zero, suc, ◌+◌}
use mathlib.Core.Path.{◌≡◌, refl, sym, ap, ◌∙◌}
use mathlib.Core.Logic.{◌⊎◌, inl, inr}
use mathlib.Core.Bool.{Bool, true, false}
use mathlib.Core.Option.{Option, none, some}
use mathlib.Core.List.{List, [], ◌∷◌, ◌++◌, map}
use native.Mathlib.Omega.{arith}
use inroa.Base.{
  Text, codes, length, ok, text_eq, if◌then◌else◌, ◌==◌, get_elem?, get_elem?-append-length,
  decrement, resume, modify,
}
use inroa.Page.{
  Element, Page, all_elements, find_id, update_node, update_page, set_html, is_below, remove_at,
  delete_row,
}
use inroa.Page.Rows.{delete_row-table, update_page-rows}
use inroa.Page.Editing.{shown}
use inroa.Update.{Transport, open_ajax, Change}
use inroa.Standard.{
  Request, State, deleta_atributo, link, remove_linha, processo_ajax, on_ready_state_change,
}
use inroa.Standard.Handlers.{confirma_exclusao}
use inroa.Standard.Events.{Event, confirma_event, change_event, handle, step, run_events}

-- The page without a row.
unfoldable pub without_row : ℕ → Page → Page
unfolding remove_at
without_row linha page = record page { rows = remove_at linha page.rows }

-- The request that a confirmation sends.
abbrev pub deletion : Text → Text → ℕ → Request
deletion id id_resultado node = record {
  target = some node;
  id_div = id_resultado;
  acao = deleta_atributo;
  url = link deleta_atributo id_resultado [] [] id [];
}

-- An answer with status 200.
abbrev pub answer : Text → Change
answer text = record { ready_state = 4; status = 200; response_text = text }

module _ (has : Transport → Bool) (fields_of : Text → List (Text × Text)) where
  pub confirma-state :
      (t : Transport) (id id_resultado : Text) (linha : ℕ) (x : Element) (s : State)
      → open_ajax has ≡ some t
      → find_id id_resultado (all_elements s.page) ≡ some x
      → step has fields_of (confirma_event true id id_resultado linha) s ≡ record s {
        requests = s.requests ++ deletion id id_resultado x.node ∷ [];
        linha_apagar = linha;
      }
  unfolding confirma_exclusao processo_ajax
  confirma-state t id id_resultado linha x s opens found =
      rw (step, handle, confirma_exclusao, processo_ajax, opens, found) refl

  pub remove_linha-state :
      (linha : ℕ) (s : State)
      → s.page.table_id ≡ codes "tabela"
      → is_below linha (length s.page.rows) ≡ true
      → (remove_linha (codes "tabela") linha s).1
        ≡ record s { page = without_row linha s.page; linha_js = decrement s.linha_js }
  unfolding remove_linha without_row
  remove_linha-state linha s table below =
      let e : delete_row (codes "tabela") linha s.page ≡ ok (without_row linha s.page) =
        ap (λ name. delete_row name linha s.page) (sym table)
        ∙ delete_row-table linha s.page below in
      ap
        (λ r.
          (resume (λ page. modify λ t. record t { page = page; linha_js = decrement t.linha_js })
            (r, s)).1)
        e

  answer-state :
      (id id_resultado text : Text) (node : ℕ) (s : State)
      → s.page.table_id ≡ codes "tabela"
      → is_below s.linha_apagar (length s.page.rows) ≡ true
      → (on_ready_state_change fields_of
          (deletion id id_resultado node)
          (record { ready_state = 4; status = 200; response_text = text })
          s).1
        ≡ record s {
          page = without_row s.linha_apagar (shown fields_of node text s.page);
          linha_js = decrement s.linha_js;
        }
  unfolding on_ready_state_change
  answer-state id id_resultado text node s table below =
      let rows = update_page-rows node (set_html fields_of text) s.page in
      remove_linha-state s.linha_apagar (record s { page = shown fields_of node text s.page })
        (rows.0 ∙ table) (ap (is_below s.linha_apagar) rows.1 ∙ below)

  change-state :
      (i : ℕ) (request : Request) (change : Change) (s : State)
      → get_elem? s.requests i ≡ some request
      → step has fields_of (change_event i change) s
        ≡ (on_ready_state_change fields_of request change s).1
  change-state i request change s e = rw (step, handle, e) refl

  pub answer-step :
      (i : ℕ) (id id_resultado text : Text) (node : ℕ) (s : State)
      → get_elem? s.requests i ≡ some (deletion id id_resultado node)
      → s.page.table_id ≡ codes "tabela"
      → is_below s.linha_apagar (length s.page.rows) ≡ true
      → step has fields_of (change_event i (answer text)) s ≡ record s {
        page = without_row s.linha_apagar (shown fields_of node text s.page);
        linha_js = decrement s.linha_js;
      }
  answer-step i id id_resultado text node s sent table below =
      change-state i (deletion id id_resultado node) (answer text) s sent
      ∙ answer-state id id_resultado text node s table below

  -- When the browser can send requests, the page has the table and the element for the results, and
  -- the table has the row: a confirmed deletion that the server answers with status 200, before
  -- anything else happens, shows the answer in that element, removes exactly this row and takes 1
  -- from `linhaJS`.
  pub confirma_exclusao-answer :
      (t : Transport) (id id_resultado text : Text) (linha : ℕ) (x : Element) (s : State)
      → open_ajax has ≡ some t
      → find_id id_resultado (all_elements s.page) ≡ some x
      → s.page.table_id ≡ codes "tabela"
      → is_below linha (length s.page.rows) ≡ true
      → run_events has fields_of
          (confirma_event true id id_resultado linha
            ∷ change_event (length s.requests) (answer text)
            ∷ [])
          s
        ≡ record s {
          requests = s.requests ++ deletion id id_resultado x.node ∷ [];
          linha_apagar = linha;
          page = without_row linha (shown fields_of x.node text s.page);
          linha_js = decrement s.linha_js;
        }
  unfolding run_events
  confirma_exclusao-answer t id id_resultado text linha x s opens found table below =
      ap (step has fields_of (change_event (length s.requests) (answer text)))
        (confirma-state t id id_resultado linha x s opens found)
      ∙ answer-step (length s.requests) id id_resultado text x.node _
          (get_elem?-append-length s.requests [] _) table below
