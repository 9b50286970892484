-- ===== src/Mapping/Table/Steps.antt =====
-- What the steps of the calls do to the table.
use Prim.Native.Nat.{ℕ}
use mathlib.Core.Path.{◌≡◌, refl, sym, ap, ap₂, subst, ◌∙◌}
use mathlib.Core.Bool.{Bool, true, false}
use mathlib.Core.Option.{Option, none, some}
use mathlib.Core.List.{map}
use inroa.Base.{
  Text, codes, length, increment, decrement, int_text, text_eq, text_eq_iff, Result, ok, throws,
  resume, modify, get, ◌>>=◌, ◌>>◌,
}
use inroa.Base.Policy.{Policy, Keeps}
use inroa.Base.Reach.{here, next, Reach-trans}
use inroa.Page.{Element, Page, append_row, delete_row, is_below, remove_at, update_page}
use inroa.Page.Elements.{KeepsId}
use inroa.Page.Rows.{append_row-rows, delete_row-ok, length-map, update_page-rows}
use inroa.Page.Ids.{ids, ids-append_row, ids-update_page, map-remove_at}
use inroa.Mapping.{State, Run, delete_linha, remove_linha}
use inroa.Mapping.Handlers.{set_disabled}
use inroa.Mapping.Rows.{count_up, insert_row, new_row, row_class, composto_row}
use inroa.Mapping.Walk.{Steps}
use inroa.Mapping.Table.{
  Table, view, with_row, with_composto, without, count_down, Edit, add, compose, drop, remove,
  Edits,
}

-- From one state to another, the table stays the table, and is edited as it may be.
pub record Follows (s t : State) : Type 0 where
  pub table : t.page.table_id ≡ s.page.table_id
  pub edits : Edits (view s) (view t)

abbrev pub table_policy : Policy State
table_policy = record {
  Allows = λ s t. s.page.table_id ≡ codes "tabela" → Follows s t;
  stays = λ s table. record { table = refl; edits = here };
  trans = λ s t u first second table.
      let a = first table in
      let b = second (a.table ∙ table) in
      record { table = b.table ∙ a.table; edits = Reach-trans a.edits b.edits };
}

-- One edit.
Edit-Follows :
    (s t : State) (v : Table)
    → t.page.table_id ≡ s.page.table_id
    → Edit (view s) v
    → view t ≡ v
    → Follows s t
Edit-Follows s t v table e same = record {
  table = table;
  edits = subst (λ (u : Table). Edits (view s) u) (sym same) (next e here);
}

-- A state that shows the same table.
same-Follows :
    (s t : State)
    → t.page.table_id ≡ s.page.table_id
    → ids t.page ≡ ids s.page
    → t.totals ≡ s.totals
    → Follows s t
same-Follows s t table rows total = record {
  table = table;
  edits =
      subst (λ (u : Table). Edits (view s) u)
        (sym (ap₂ (λ r n. record { rows = r; total = n }) rows total)) here;
}

text_eq-tabela :
    (s : State) → s.page.table_id ≡ codes "tabela" → text_eq (codes "tabela") s.page.table_id ≡ true
text_eq-tabela s table = (text_eq_iff (codes "tabela") s.page.table_id).1 (sym table)

set_disabled-Follows :
    (v : Bool) (s : State)
    → ((set_disabled v s).page ≡ s.page) × ((set_disabled v s).totals ≡ s.totals)
set_disabled-Follows v s = by_botao s.botao refl
  where
    by_botao :
        (botao : Option ℕ)
        → s.botao ≡ botao
        → ((set_disabled v s).page ≡ s.page) × ((set_disabled v s).totals ≡ s.totals)
    by_botao none e = rw (set_disabled, e) (refl, refl)
    by_botao (some b) e = rw (set_disabled, e) (refl, refl)

pub table_modify :
    (f : State → State)
    → ((s : State) → ((f s).page ≡ s.page) × ((f s).totals ≡ s.totals))
    → Keeps table_policy (modify f)
table_modify f same = record {
  allows =
      λ s table. same-Follows s (f s) (ap Page.table_id (same s).0) (ap ids (same s).0) (same s).1;
}

table_update :
    (node : ℕ) (f : Element → Element)
    → KeepsId f
    → Keeps table_policy (modify λ s. record s { page = update_page node f s.page })
table_update node f keeps = record {
  allows = λ s table.
      same-Follows s _ (update_page-rows node f s.page).0 (ids-update_page node f s.page keeps)
        refl;
}

-- The counter and the row that it is for are one edit.
table_insert_new :
    (linha_real : ℕ) (k : State → Run Unit)
    → ((s : State) → Keeps table_policy (k s))
    → Keeps table_policy (
        modify count_up
        >> (get >>= λ s. insert_row (new_row (int_text s.totals) linha_real (row_class s)) >> k s))
unfolding count_up new_row
table_insert_new linha_real k hk = record {
  allows = λ s table.
      let up = count_up s in
      let row = new_row (int_text up.totals) linha_real (row_class up) in
      let t : State = record up { page = append_row row s.page } in
      let added : Follows s t =
        Edit-Follows s t (with_row (view s)) (append_row-rows row s.page).0 add
          (ap (λ r. record { rows = r; total = increment s.totals }) (ids-append_row row s.page)) in
      rw (text_eq-tabela s table) (table_policy.trans s t _ (λ _. added) ((hk up).allows t) table);
}

table_insert_composto : (linha : ℕ) → Keeps table_policy (insert_row (composto_row linha))
unfolding composto_row
table_insert_composto linha = record {
  allows = λ s table.
      let row = composto_row linha in
      rw (text_eq-tabela s table) (
        Edit-Follows s (record s { page = append_row row s.page }) (with_composto linha (view s))
          (append_row-rows row s.page).0 (compose linha)
          (ap (λ r. record { rows = r; total = s.totals }) (ids-append_row row s.page)));
}

module _ (linha : ℕ) (s : State) (below : is_below linha (length s.page.rows) ≡ true) where
  still_below : is_below linha (length (ids s.page)) ≡ true
  still_below = ap (is_below linha) (length-map (map Element.id) s.page.rows) ∙ below

  dropped : Page
  dropped = record s.page { rows = remove_at linha s.page.rows }

  drop-Follows : Follows s (record s { page = dropped })
  unfolding dropped without
  drop-Follows = Edit-Follows s _ (without linha (view s)) refl (drop linha still_below) (
      ap (λ r. record { rows = r; total = s.totals })
        (map-remove_at (map Element.id) linha s.page.rows))

  remove-Follows : Follows s (record s { page = dropped; totals = decrement s.totals })
  unfolding dropped without
  remove-Follows =
      Edit-Follows s _ (count_down (without linha (view s))) refl (remove linha still_below) (
        ap (λ r. record { rows = r; total = decrement s.totals })
          (map-remove_at (map Element.id) linha s.page.rows))

table_drop : (linha : ℕ) → Keeps table_policy (delete_linha (codes "tabela") linha)
unfolding dropped
table_drop linha = record {
  allows = λ s table. by_result s (delete_row (codes "tabela") linha s.page) refl;
}
  where
    by_result :
        (s : State) (r : Result Page)
        → delete_row (codes "tabela") linha s.page ≡ r
        → Follows s (resume (λ page. modify λ t. record t { page = page }) (r, s)).1
    by_result s (throws f) e = record { table = refl; edits = here }
    by_result s (ok page) e =
        let (same, below) = delete_row-ok (codes "tabela") linha s.page page e in
        rw same (drop-Follows linha s below)

table_remove :
    (nome_tabela : Text) (linha : ℕ) → Keeps table_policy (remove_linha nome_tabela linha)
unfolding remove_linha dropped
table_remove nome_tabela linha = record {
  allows = λ s table. by_result s (delete_row nome_tabela linha s.page) refl;
}
  where
    by_result :
        (s : State) (r : Result Page)
        → delete_row nome_tabela linha s.page ≡ r
        → Follows s
            (resume
              (λ _. modify λ t. record t { totals = decrement t.totals })
              (resume (λ page. modify λ t. record t { page = page }) (r, s))).1
    by_result s (throws f) e = record { table = refl; edits = here }
    by_result s (ok page) e =
        let (same, below) = delete_row-ok nome_tabela linha s.page page e in
        rw same (remove-Follows linha s below)

pub table_policy-Steps : Steps table_policy
table_policy-Steps = record {
  apart = λ f same. table_modify f (λ s. ((same s).0, (same s).1));
  update = table_update;
  enable = table_modify (set_disabled false) (set_disabled-Follows false);
  exibe = λ bot. exibe-Keeps bot;
  insert_new = table_insert_new;
  insert_composto = table_insert_composto;
  drop = table_drop;
  remove = table_remove;
}
  where
    exibe-Keeps :
        (bot : ℕ)
        → Keeps table_policy
            (modify λ s. set_disabled true (record (set_disabled false s) { botao = some bot }))
    exibe-Keeps bot = table_modify _ (set_disabled-Follows false)
