-- ===== src/Standard/Editing.antt =====
-- An edit that is begun and given up.
use Prim.Native.Nat.{ℕ}
use mathlib.Core.Path.{◌≡◌, refl, ap, ◌∙◌}
use mathlib.Core.Logic.{inl, inr}
use mathlib.Core.Bool.{Bool, true, false}
use mathlib.Core.Option.{Option, some}
use mathlib.Core.List.{List, [], ◌∷◌, ◌++◌, map}
use inroa.Base.{
  Text, codes, length, resume, ◌>>◌, modify, some_or_fail, get_elem?, get_elem?-append-length, ◌==◌,
  Bool-cases,
}
use inroa.Page.{assign, Element, Page, all_elements, find_id, update_page, set_html}
use inroa.Page.Elements.{IsOnly}
use inroa.Page.Editing.{
  shown, IsPlain, assign-assign, IsEdited, self-IsEdited, shown-IsEdited, shown-found, shown-same,
}
use inroa.Update.{Transport, open_ajax, Change}
use inroa.Standard.{Request, State, acao_exibe_text, link, processo_ajax, on_ready_state_change}
use inroa.Standard.Handlers.{exibe_text, cancelar, set_disabled}
use inroa.Standard.Events.{
  exibe_text_event, cancelar_event, change_event, handle, step, run_events, run_events-append,
}

-- The request that `exibeText` sends.
abbrev pub edition : Text → Text → Text → Element → Request
edition id id_padrao atributo x = record {
  target = some x.node;
  id_div = id;
  acao = acao_exibe_text;
  url = link acao_exibe_text id [] x.inner_html id_padrao atributo;
}

module _ (has : Transport → Bool) (fields_of : Text → List (Text × Text))
    (id id_padrao atributo : Text) (bot : ℕ) (x : Element) (s : State) where
  -- The state when the request is sent.
  abbrev opened : State
  opened = record s {
    botao = some bot;
    is_disabled = assign bot true s.is_disabled;
    requests = s.requests ++ edition id id_padrao atributo x ∷ [];
  }

  -- What holds while the edit is open: nothing but the element has changed.
  record IsEditing (u : State) : Type 0 where
    rest : u ≡ record opened { page = u.page }
    edited : IsEdited fields_of id x s.page u.page

  opened-IsEditing : find_id id (all_elements s.page) ≡ some x → IsEditing opened
  opened-IsEditing e = record { rest = refl; edited = self-IsEdited fields_of id x s.page e }

  exibe_text-opened :
      (t : Transport)
      → open_ajax has ≡ some t
      → find_id id (all_elements s.page) ≡ some x
      → step has fields_of (exibe_text_event id id_padrao atributo bot) s ≡ opened
  unfolding exibe_text processo_ajax
  exibe_text-opened t opens e = rw (step, handle, exibe_text, e, processo_ajax, opens, e) refl

  shown-IsEditing :
      (h : Text) (u : State)
      → IsEditing u
      → IsEditing (record u { page = shown fields_of x.node h u.page })
  shown-IsEditing h u editing = record {
    rest = ap (λ (v : State). record v { page = shown fields_of x.node h u.page }) editing.rest;
    edited = shown-IsEdited fields_of id x s.page h u.page editing.edited;
  }

  changed-IsEditing :
      (change : Change) (u : State)
      → IsEditing u
      → IsEditing (on_ready_state_change fields_of (edition id id_padrao atributo x) change u).1
  unfolding on_ready_state_change
  changed-IsEditing change u editing = elim (Bool-cases (change.ready_state == 1)) [
    | inl loading ↦ rw loading (shown-IsEditing (codes "Aguarde...") u editing)
    | inr other ↦ elim (Bool-cases (change.ready_state == 4)) [
      | inr early ↦ rw (other, early) editing
      | inl ended ↦ elim (Bool-cases (change.status == 200)) [
        | inl fine ↦ rw (other, ended, fine) (shown-IsEditing change.response_text u editing)
        | inr bad ↦
            rw (other, ended, bad) (shown-IsEditing (codes "Erro nas funções do Ajax") u editing)
      ]
    ]
  ]

  step-IsEditing :
      (change : Change) (u : State)
      → IsEditing u
      → IsEditing (step has fields_of (change_event (length s.requests) change) u)
  step-IsEditing change u editing =
      let sent : get_elem? u.requests (length s.requests) ≡ some (edition id id_padrao atributo x) =
        ap (λ (v : State). get_elem? v.requests (length s.requests)) editing.rest
        ∙ get_elem?-append-length s.requests [] _ in
      rw (step, handle, sent) (changed-IsEditing change u editing)

  changes-IsEditing :
      (changes : List Change) (u : State)
      → IsEditing u
      → IsEditing (run_events has fields_of (map (change_event (length s.requests)) changes) u)
  unfolding run_events
  changes-IsEditing [] u editing = editing
  changes-IsEditing (change ∷ changes) u editing =
      changes-IsEditing changes _ (step-IsEditing change u editing)

  -- The state when the edit is over.
  abbrev pub closed : State
  closed = record s {
    botao = some bot;
    is_disabled = assign bot false s.is_disabled;
    requests = s.requests ++ edition id id_padrao atributo x ∷ [];
  }

  -- The same, with another text in the element.
  abbrev pub closed_with : Text → State
  closed_with valor = record closed { page = shown fields_of x.node valor s.page }

  cancelar-shown :
      (valor : Text) (u : State)
      → IsEditing u
      → step has fields_of (cancelar_event id valor) u ≡ closed_with valor
  unfolding cancelar
  cancelar-shown valor u editing =
      let (y, e, n) = editing.edited.found in
      let restored = shown-found fields_of id x s.page valor u.page y editing.edited n in
      ap (step has fields_of (cancelar_event id valor)) editing.rest
      ∙ (ap
            (λ (o : Option Element).
              (resume
                (λ (z : Element).
                  modify (λ (v : State). record v {
                    page = update_page z.node (set_html fields_of valor) v.page;
                  })
                  >> modify (set_disabled false))
                (some_or_fail o (record opened { page = u.page }))).1)
            e
          ∙ (ap
                (λ (p : Page). record closed {
                  is_disabled = assign bot false (assign bot true s.is_disabled);
                  page = p;
                })
                restored
              ∙ ap (λ (f : ℕ → Bool). record (closed_with valor) { is_disabled = f })
                  (assign-assign bot false true s.is_disabled)))

  given_up :
      (t : Transport) (changes : List Change) (valor : Text)
      → open_ajax has ≡ some t
      → find_id id (all_elements s.page) ≡ some x
      → run_events has fields_of
          (exibe_text_event id id_padrao atributo bot
            ∷ (map (change_event (length s.requests)) changes ++ cancelar_event id valor ∷ []))
          s
        ≡ closed_with valor
  unfolding run_events
  given_up t changes valor opens e =
      let events = map (change_event (length s.requests)) changes in
      let cancel = cancelar_event id valor ∷ [] in
      ap (run_events has fields_of (events ++ cancel)) (exibe_text-opened t opens e)
      ∙ (run_events-append has fields_of events cancel opened
          ∙ cancelar-shown valor _ (changes-IsEditing changes opened (opened-IsEditing e)))

  -- If the browser can send requests, and the page has one element with the id, which holds what its
  -- HTML brings: whatever the changes of the request are, and whatever they bring, an edit that is given
  -- up by a call of `cancelar` with any text leaves the page as it was before but for this text in the
  -- element, and with the HTML that the element had before, unchanged, as it was before; of the
  -- buttons only its own is changed: it is enabled.
  pub exibe_text-cancelar :
      (t : Transport) (changes : List Change) (valor : Text)
      → open_ajax has ≡ some t
      → find_id id (all_elements s.page) ≡ some x
      → IsPlain fields_of x
      → IsOnly x s.page
      → (run_events has fields_of
            (exibe_text_event id id_padrao atributo bot
              ∷ (map (change_event (length s.requests)) changes ++ cancelar_event id valor ∷ []))
            s
          ≡ closed_with valor)
        × (run_events has fields_of
              (exibe_text_event id id_padrao atributo bot
                ∷ (map (change_event (length s.requests)) changes
                    ++ cancelar_event id x.inner_html ∷ []))
              s
            ≡ closed)
  exibe_text-cancelar t changes valor opens e plain only = (
    given_up t changes valor opens e,
    given_up t changes x.inner_html opens e
        ∙ ap (λ (p : Page). record closed { page = p })
            (shown-same fields_of id x s.page plain only),
  )
