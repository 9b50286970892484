-- ===== src/Mapping/Editing.antt =====
-- The choice of another attribute for a mapping, which is begun and given up.
use Prim.Native.Nat.{ℕ}
use mathlib.Core.Path.{◌≡◌, refl, sym, ap, subst, ◌∙◌}
use mathlib.Core.Logic.{inl, inr}
use mathlib.Core.Bool.{Bool, true, false}
use mathlib.Core.Option.{Option, none, some}
use mathlib.Core.List.{List, [], ◌∷◌, ◌++◌, map}
use inroa.Base.{
  Text, codes, length, get_elem?, get_elem?-append-length, resume, ◌>>◌, modify, some_or_fail,
}
use inroa.Page.{Element, Page, all_elements, assign, find_id, set_html, update_page}
use inroa.Page.Elements.{IsOnly}
use inroa.Page.Editing.{
  shown, IsPlain, assign-assign, IsEdited, self-IsEdited, shown-IsEdited, shown-found, shown-same,
}
use inroa.Update.{Transport, open_ajax, Change}
use inroa.Mapping.{Request, State, mostrar, by_id, send, on_ready_state_change}
use inroa.Mapping.Handlers.{processo_link, set_disabled, processo, exibe_select, cancelar}
use inroa.Mapping.Answers.{on_ready_state_change-mostrar}
use inroa.Mapping.Events.{
  exibe_select_event, cancelar_event, change_event, handle, step, run_events, run_events-append,
}

-- With an id that is found on one page, the same element is found by both ways.
by_id-find_id :
    (id : Text) (page : Page) (x : Element)
    → by_id id page ≡ some x
    → (u : Page) → by_id id u ≡ find_id id (all_elements u)
unfolding by_id
by_id-find_id [] page x e u = cc
by_id-find_id (c ∷ id) page x e u = refl

-- A button is all that `set_disabled` changes.
set_disabled-eq :
    (v : Bool) (s : State)
    → set_disabled v s ≡ record s { is_disabled = (set_disabled v s).is_disabled }
set_disabled-eq v s = by_botao s.botao
  where
    by_botao :
        (botao : Option ℕ)
        → let after : State = elim botao [
          | none ↦ s
          | some b ↦ record s { is_disabled = assign b v s.is_disabled }
        ] in
          after ≡ record s { is_disabled = after.is_disabled }
    by_botao none = refl
    by_botao (some b) = refl

-- The request that `exibeSelect` sends.
abbrev pub selection : Text → Text → Element → Request
selection id id_map x = record {
  target = some x.node;
  acao = mostrar;
  url = processo_link id id_map (codes "comboBox") [] x.inner_html [];
}

module _ (has : Transport → Bool) (fields_of : Text → List (Text × Text)) (id id_map : Text)
    (bot : ℕ) (x : Element) (s : State) where
  -- The state when the request is sent: the button of the edit before is enabled.
  abbrev opened : State
  opened = record s {
    botao = some bot;
    is_disabled = assign bot true (set_disabled false s).is_disabled;
    requests = s.requests ++ selection id id_map x ∷ [];
  }

  -- What holds while the edit is open: nothing but the element has changed.
  record IsEditing (u : State) : Type 0 where
    rest : u ≡ record opened { page = u.page }
    edited : IsEdited fields_of id x s.page u.page

  exibe_select-opened :
      (t : Transport)
      → open_ajax has ≡ some t
      → by_id id s.page ≡ some x
      → step has fields_of (exibe_select_event id id_map bot) s ≡ opened
  unfolding exibe_select processo send
  exibe_select-opened t opens e =
      rw (step, handle, exibe_select, set_disabled-eq false s, e, processo, send, opens, e) refl

  shown-IsEditing :
      (h : Text) (u : State)
      → IsEditing u
      → IsEditing (record u { page = shown fields_of x.node h u.page })
  shown-IsEditing h u editing = record {
    rest = ap (λ (v : State). record v { page = shown fields_of x.node h u.page }) editing.rest;
    edited = shown-IsEdited fields_of id x s.page h u.page editing.edited;
  }

  changed-IsEditing :
      (change : Change) (u : State)
      → IsEditing u
      → IsEditing (on_ready_state_change fields_of (selection id id_map x) change u).1
  changed-IsEditing change u editing =
      elim (on_ready_state_change-mostrar fields_of x.node (selection id id_map x).url change u) [
        | inl same ↦ subst IsEditing (sym same) editing
        | inr (h, e) ↦ subst IsEditing (sym e) (shown-IsEditing h u editing)
      ]

  changes-IsEditing :
      (changes : List Change) (u : State)
      → IsEditing u
      → IsEditing (run_events has fields_of (map (change_event (length s.requests)) changes) u)
  unfolding run_events
  changes-IsEditing [] u editing = editing
  changes-IsEditing (change ∷ changes) u editing =
      let sent : get_elem? u.requests (length s.requests) ≡ some (selection id id_map x) =
        ap (λ (v : State). get_elem? v.requests (length s.requests)) editing.rest
        ∙ get_elem?-append-length s.requests [] _ in
      changes-IsEditing changes _ (rw (step, handle, sent) (changed-IsEditing change u editing))

  -- The state when the edit is over.
  abbrev pub closed : State
  closed = record s {
    botao = some bot;
    is_disabled = assign bot false (set_disabled false s).is_disabled;
    requests = s.requests ++ selection id id_map x ∷ [];
  }

  -- The same, with another text in the element.
  abbrev pub closed_with : Text → State
  closed_with valor = record closed { page = shown fields_of x.node valor s.page }

  cancelar-shown :
      (valor : Text) (u : State)
      → IsEditing u
      → by_id id s.page ≡ some x
      → step has fields_of (cancelar_event id valor) u ≡ closed_with valor
  unfolding cancelar
  cancelar-shown valor u editing e =
      let (y, found, n) = editing.edited.found in
      let here : by_id id u.page ≡ some y = by_id-find_id id s.page x e u.page ∙ found in
      let restored = shown-found fields_of id x s.page valor u.page y editing.edited n in
      ap (step has fields_of (cancelar_event id valor)) editing.rest
      ∙ (ap
            (λ (o : Option Element).
              (resume
                (λ (z : Element).
                  modify (λ (v : State). record v {
                    page = update_page z.node (set_html fields_of valor) v.page;
                  })
                  >> modify (set_disabled false))
                (some_or_fail o (record opened { page = u.page }))).1)
            here
          ∙ (ap
                (λ (p : Page). record closed {
                  is_disabled =
                      assign bot false (assign bot true (set_disabled false s).is_disabled);
                  page = p;
                })
                restored
              ∙ ap (λ (f : ℕ → Bool). record (closed_with valor) { is_disabled = f })
                  (assign-assign bot false true (set_disabled false s).is_disabled)))

  given_up :
      (t : Transport) (changes : List Change) (valor : Text)
      → open_ajax has ≡ some t
      → by_id id s.page ≡ some x
      → run_events has fields_of
          (exibe_select_event id id_map bot
            ∷ (map (change_event (length s.requests)) changes ++ cancelar_event id valor ∷ []))
          s
        ≡ closed_with valor
  unfolding run_events
  given_up t changes valor opens e =
      let events = map (change_event (length s.requests)) changes in
      let cancel = cancelar_event id valor ∷ [] in
      let found = by_id-find_id id s.page x e s.page in
      let begun : IsEditing opened = record {
        rest = refl;
        edited = self-IsEdited fields_of id x s.page (sym found ∙ e);
      } in
      ap (run_events has fields_of (events ++ cancel)) (exibe_select-opened t opens e)
      ∙ (run_events-append has fields_of events cancel opened
          ∙ cancelar-shown valor _ (changes-IsEditing changes opened begun) e)

  -- If the browser can send requests, and the page has one element with the id, which holds what its
  -- HTML brings: whatever the changes of the request are, and whatever they bring, a choice that is
  -- given up by a call of `cancelar` with any text leaves the page as it was before but for this text
  -- in the element, and with the HTML that the element had before, unchanged, as it was before; of the
  -- buttons only its own and that of the edit before are changed: they are enabled.
  pub exibe_select-cancelar :
      (t : Transport) (changes : List Change) (valor : Text)
      → open_ajax has ≡ some t
      → by_id id s.page ≡ some x
      → IsPlain fields_of x
      → IsOnly x s.page
      → (run_events has fields_of
            (exibe_select_event id id_map bot
              ∷ (map (change_event (length s.requests)) changes ++ cancelar_event id valor ∷ []))
            s
          ≡ closed_with valor)
        × (run_events has fields_of
              (exibe_select_event id id_map bot
                ∷ (map (change_event (length s.requests)) changes
                    ++ cancelar_event id x.inner_html ∷ []))
              s
            ≡ closed)
  exibe_select-cancelar t changes valor opens e plain only = (
    given_up t changes valor opens e,
    given_up t changes x.inner_html opens e
        ∙ ap (λ (p : Page). record closed { page = p })
            (shown-same fields_of id x s.page plain only),
  )
