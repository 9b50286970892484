-- ===== src/Mapping/Unsaved/Saving.antt =====
-- What is saved when a row is added while another one is not saved yet.
use Prim.Native.Nat.{ℕ, ◌≤◌}
use mathlib.Core.Path.{◌≡◌, refl, sym, ap, subst, ◌∙◌}
use mathlib.Core.Bool.{Bool, true}
use mathlib.Core.Option.{none, some}
use mathlib.Core.List.{List, [], ◌∷◌, ◌++◌}
use inroa.Base.{increment, Text, codes, length, int_text, All}
use inroa.Page.{Element, Page, all_elements, find_field, has_handler, node_of}
use inroa.Page.Extended.{IsNumbered, has_handler-later, has_handler-first, find_field-first}
use inroa.Update.{Transport, open_ajax}
use inroa.Mapping.{Request, State, salvar, by_id, send}
use inroa.Mapping.Handlers.{salvar_ajax, salvar_link, salvar_novo_mapeamento}
use inroa.Mapping.Events.{Event, adiciona_event, salvar_novo_event, handle, step, run_events}
use inroa.Mapping.Unsaved.Row.{IsOfRow, IsUnsaved, events-IsUnsaved, start, start-IsUnsaved}
use inroa.Mapping.Unsaved.{adiciona_map-added, total}

module _ (has : Transport → Bool) (fields_of : Text → List (Text × Text)) (linha_real : ℕ)
    (padrao tipo v w : Text) (x y : Element) (s : State) where
  abbrev begun : State
  begun = start has fields_of linha_real padrao tipo w x s

  abbrev Unsaved : State → Type 0
  Unsaved = IsUnsaved has fields_of linha_real padrao tipo w x s

  -- The request that saves the row, on a page.
  abbrev saving : Text → Page → Request
  saving d page = record {
    target =
        node_of (by_id (codes "result" ++ total has fields_of linha_real padrao tipo w x s) page);
    acao = salvar;
    url = salvar_link v d [] [] padrao tipo;
  }

  abbrev id_destino : Text
  id_destino = codes "atrb" ++ (codes "destino" ++ total has fields_of linha_real padrao tipo w x s)

  saved :
      (t : Transport) (n : ℕ) (page : Page) (d : Text) (y' z : Element)
      → open_ajax has ≡ some t
      → has_handler n (all_elements page) ≡ true
      → find_field (codes "atribOrigem") (all_elements page) ≡ some (v, y')
      → find_field id_destino (all_elements page) ≡ some (d, z)
      → step has fields_of (salvar_novo_event n) (record begun { page = page })
        ≡ record begun { page = page; requests = begun.requests ++ saving d page ∷ [] }
  unfolding salvar_novo_mapeamento salvar_ajax send
  saved t n page d y' z opens link origem destino =
      rw (step, handle, link, salvar_novo_mapeamento, origem, destino, salvar_ajax, send, opens)
        refl

  module _ (u : State) (unsaved : Unsaved u) where
    -- A link in the new row does nothing.
    salvar_novo-unchanged :
        (n : ℕ)
        → IsNumbered s.page
        → s.page.next_node ≤ n
        → step has fields_of (salvar_novo_event n) u ≡ u
    salvar_novo-unchanged n numbered le =
        let dead = has_handler-later s.page x numbered n u.page le unsaved.extended in
        rw (step, handle, dead) refl

    -- The link that was there before sends a request.
    salvar_novo-sent :
        (t : Transport) (d : Text) (z : Element)
        → open_ajax has ≡ some t
        → find_field (codes "salvar") (all_elements s.page) ≡ some (w, x)
        → find_field (codes "atribOrigem") (all_elements s.page) ≡ some (v, y)
        → find_field id_destino (all_elements u.page) ≡ some (d, z)
        → step has fields_of (salvar_novo_event x.node) u
          ≡ record u { requests = u.requests ++ saving d u.page ∷ [] }
    salvar_novo-sent t d z opens found origem destino =
        let link = has_handler-first s.page x (codes "salvar") w u.page found unsaved.extended in
        let kept =
          find_field-first s.page x (codes "atribOrigem") v y u.page origem unsaved.extended in
        ap (step has fields_of (salvar_novo_event x.node)) unsaved.rest
        ∙ (saved t x.node u.page d _ z opens link kept destino
            ∙ sym (
                ap (λ (q : State). record q { requests = q.requests ++ saving d u.page ∷ [] })
                  unsaved.rest))

  -- If the browser can send requests, and the page has the table and, with elements numbered as they
  -- came, a link that saves, the choice of an origin and no element with the ids of the next row: after
  -- this row was added, whatever its two requests bring and the user types in it, as long as it has a
  -- choice of a destination, a click on the link `salvar` in the new row changes nothing, and the link
  -- that was there before saves the origin that was there before with the destination of the new row.
  pub salvar_novo-mixed :
      (t : Transport) (events : List Event) (n : ℕ) (d : Text) (z : Element)
      → open_ajax has ≡ some t
      → s.page.table_id ≡ codes "tabela"
      → IsNumbered s.page
      → find_field (codes "salvar") (all_elements s.page) ≡ some (w, x)
      → find_field (codes "atribOrigem") (all_elements s.page) ≡ some (v, y)
      → by_id (codes "result" ++ int_text (increment s.totals)) s.page ≡ none
      → by_id (codes "destino" ++ int_text (increment s.totals)) s.page ≡ none
      → All (IsOfRow (length s.requests) s.page.next_node) events
      → find_field (codes "atrb" ++ (codes "destino" ++ int_text (increment s.totals))) (
          all_elements
            (run_events has fields_of (adiciona_event linha_real padrao tipo ∷ events) s).page)
        ≡ some (d, z)
      → s.page.next_node ≤ n
      → let u : State =
          run_events has fields_of (adiciona_event linha_real padrao tipo ∷ events) s in
        (step has fields_of (salvar_novo_event n) u ≡ u)
        × (step has fields_of (salvar_novo_event x.node) u
            ≡ record u { requests = u.requests ++ saving d u.page ∷ [] })
  unfolding run_events
  salvar_novo-mixed t events n d z opens table fresh found origem no_result no_destino own destino
        le =
      let first =
        adiciona_map-added has fields_of linha_real padrao tipo w x s t opens table found no_result
          no_destino in
      let unsaved : Unsaved (run_events has fields_of events begun) =
        events-IsUnsaved has fields_of linha_real padrao tipo w x s fresh events begun own
          (start-IsUnsaved has fields_of linha_real padrao tipo w x s fresh found) in
      let reached : Unsaved
          (run_events has fields_of (adiciona_event linha_real padrao tipo ∷ events) s) =
        subst Unsaved (sym (ap (run_events has fields_of events) first)) unsaved in
      (
        salvar_novo-unchanged _ reached n fresh le,
        salvar_novo-sent _ reached t d z opens found origem destino,
      )
