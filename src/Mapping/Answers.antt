-- ===== src/Mapping/Answers.antt =====
-- What the answers to requests do to the rows.
use Prim.Native.Nat.{ℕ}
use mathlib.Core.Path.{◌≡◌, refl, ap, ◌∙◌}
use mathlib.Core.Logic.{◌≢◌, ◌⊎◌, inl, inr}
use mathlib.Core.Bool.{Bool, true}
use mathlib.Core.Option.{Option, none, some}
use mathlib.Core.List.{List}
use inroa.Base.{
  ==_iff, Text, codes, ◌==◌, length, decrement, parse_int, is_positive, Bool-cases, resume, modify,
}
use inroa.Page.{Page, update_page, set_html, is_below, remove_at}
use inroa.Page.Rows.{update_page-rows, delete_row-table}
use inroa.Page.Editing.{shown}
use inroa.Update.{Change}
use inroa.Mapping.{
  Request, Acao, State, mostrar, salvar, excluir, show, show_excluido, after_response, remove_linha,
  on_ready_state_change,
}

-- An answer that tells that objects were deleted.
pub record IsExcluido (c : Change) : Type 0 where
  pub number : Bool × ℕ
  pub four : c.ready_state ≡ 4
  pub fine : c.status ≡ 200
  pub parsed : parse_int c.response_text ≡ some number
  pub positive : is_positive number ≡ true

-- The rows and the counter are what they were.
pub record SameRows (s t : State) : Type 0 where
  pub totals : t.totals ≡ s.totals
  pub rows : length t.page.rows ≡ length s.page.rows

module _ (fields_of : Text → List (Text × Text)) where
  -- A change of a request that shows its text puts some text into the element, or does nothing.
  pub on_ready_state_change-mostrar :
      (node : ℕ) (url : Text) (change : Change) (s : State)
      → let after : State =
          (on_ready_state_change fields_of
            (record { target = some node; acao = mostrar; url = url })
            change
            s).1 in
        (after ≡ s) ⊎ (h : Text) × (after ≡ record s { page = shown fields_of node h s.page })
  unfolding on_ready_state_change
  on_ready_state_change-mostrar node url change s = elim (Bool-cases (change.ready_state == 1)) [
    | inl loading ↦ rw loading (inr (codes "Aguarde...", refl))
    | inr other ↦ elim (Bool-cases (change.ready_state == 4)) [
      | inr early ↦ rw (other, early) (inl refl)
      | inl ended ↦ elim (Bool-cases (change.status == 200)) [
        | inl fine ↦ rw (other, ended, fine) (inr (change.response_text, refl))
        | inr bad ↦ rw (other, ended, bad) (inr (codes "Erro nas funções do Ajax", refl))
      ]
    ]
  ]

  show-SameRows :
      (target : Option ℕ) (html : Text) (s : State) → SameRows s (show fields_of target html s).1
  show-SameRows none html s = record { totals = refl; rows = refl }
  show-SameRows (some node) html s = record {
    totals = refl;
    rows = (update_page-rows node (set_html fields_of html) s.page).1;
  }

  show_excluido-SameRows :
      (target : Option ℕ) (id_tabela : Text) (linha : ℕ) (text : Text) (n : Option (Bool × ℕ))
      (s : State)
      → ((m : Bool × ℕ) → n ≡ some m → is_positive m ≢ true)
      → SameRows s (show_excluido fields_of target id_tabela linha text n s).1
  show_excluido-SameRows target id_tabela linha text none s h = show-SameRows target text s
  show_excluido-SameRows target id_tabela linha text (some m) s h =
      elim (Bool-cases (is_positive m)) [
        | inl p ↦ absurd (h m refl p)
        | inr p ↦ rw p (show-SameRows target _ s)
      ]

  after_response-SameRows :
      (target : Option ℕ) (text : Text) (acao : Acao) (s : State)
      → ((m : Bool × ℕ) → parse_int text ≡ some m → is_positive m ≢ true)
      → SameRows s (after_response fields_of target text acao s).1
  after_response-SameRows target text mostrar s h = show-SameRows target text s
  after_response-SameRows target text salvar s h = record { totals = refl; rows = refl }
  after_response-SameRows target text (excluir id_tabela linha) s h =
      show_excluido-SameRows target id_tabela linha text (parse_int text) s h

  -- A change of a request, whatever it was sent for, leaves the number of rows and `totals` as they
  -- are, unless it is the end of a request with status 200 and a text that begins with a positive
  -- number.
  pub on_ready_state_change-SameRows :
      (request : Request) (change : Change) (s : State)
      → ¬ IsExcluido change
      → SameRows s (on_ready_state_change fields_of request change s).1
  unfolding on_ready_state_change
  on_ready_state_change-SameRows request change s h = elim (Bool-cases (change.ready_state == 1)) [
    | inl loading ↦ rw loading (show-SameRows request.target _ s)
    | inr n1 ↦ elim (Bool-cases (change.ready_state == 4)) [
      | inr n4 ↦ rw (n1, n4) (record { totals = refl; rows = refl })
      | inl four ↦ elim (Bool-cases (change.status == 200)) [
        | inr bad ↦ rw (n1, four, bad) (show-SameRows request.target _ s)
        | inl fine ↦
            rw (n1, four, fine)
              (after_response-SameRows request.target change.response_text request.acao s λ m e p.
                h (record {
                  number = m;
                  four = (==_iff change.ready_state 4).0 four;
                  fine = (==_iff change.status 200).0 fine;
                  parsed = e;
                  positive = p;
                }))
      ]
    ]
  ]

  remove_linha-state :
      (linha : ℕ) (s : State)
      → is_below linha (length s.page.rows) ≡ true
      → (remove_linha s.page.table_id linha s).1 ≡ record s {
        page = record s.page { rows = remove_at linha s.page.rows };
        totals = decrement s.totals;
      }
  unfolding remove_linha
  remove_linha-state linha s below =
      ap
        (λ r.
          (resume (λ _. modify λ t. record t { totals = decrement t.totals })
            (resume (λ page. modify λ t. record t { page = page }) (r, s))).1)
        (delete_row-table linha s.page below)

  -- If the row is in the table, the answer to a deletion of it that tells that objects were deleted
  -- shows the success, removes this row and takes 1 from `totals`.
  pub on_ready_state_change-excluir :
      (node linha : ℕ) (url : Text) (change : Change) (s : State)
      → IsExcluido change
      → is_below linha (length s.page.rows) ≡ true
      → (on_ready_state_change fields_of
          (record { target = some node; acao = excluir s.page.table_id linha; url = url })
          change
          s).1
        ≡ record s {
          page =
              record (update_page node
                (set_html fields_of (codes "Exclu&iacute;do com sucesso."))
                s.page) {
                  rows =
                      remove_at linha
                        (update_page node
                          (set_html fields_of (codes "Exclu&iacute;do com sucesso."))
                          s.page).rows;
                };
          totals = decrement s.totals;
        }
  unfolding on_ready_state_change update_page
  on_ready_state_change-excluir node linha url change s d below =
      let page : Page =
        update_page node (set_html fields_of (codes "Exclu&iacute;do com sucesso.")) s.page in
      let rows =
        update_page-rows node (set_html fields_of (codes "Exclu&iacute;do com sucesso.")) s.page in
      rw (d.four, d.fine, d.parsed, d.positive)
        (remove_linha-state linha (record s { page = page }) (ap (is_below linha) rows.1 ∙ below))
