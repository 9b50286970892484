-- ===== src/Standard/Count.antt =====
-- Each handler edits the table as Standard.Table has it, so that the counter follows the rows.
pub mod Steps
use Prim.Native.Nat.{ℕ, ◌+◌}
use mathlib.Core.Path.{◌≡◌, refl, sym, ap, ap₂, subst, ◌∙◌}
use mathlib.Core.Logic.{◌⊎◌, inl, inr}
use mathlib.Core.Bool.{Bool, true, false}
use mathlib.Core.Option.{Option, none, some}
use mathlib.Core.List.{List, [], ◌∷◌, ◌++◌, map}
use native.Mathlib.Omega.{arith}
use inroa.Base.{
  Text, codes, if◌then◌else◌, ◌==◌, length, Result, ok, throws, Bool-cases, ℤ, pos_part, neg_part,
  increment, decrement, increment_parts, decrement_parts, get_elem?, int_text, text_eq, text_eq_iff,
  All, ◌>>=◌, ◌>>◌, resume, get, modify, done, fail, some_or_fail,
}
use inroa.Base.Policy.{Policy, Keeps, >>=-Keeps, get-Keeps, some_or_fail-Keeps, read-Keeps}
use inroa.Base.Reach.{here, next, Reach-trans}
use inroa.Page.{
  has_handler, set_on_click, Element, Page, update_page, set_html, append_row, delete_row, is_below,
  remove_at, find_id, find_field, all_elements,
}
use inroa.Page.Rows.{update_page-rows, append_row-rows, delete_row-ok, length-map}
use inroa.Page.Elements.{KeepsId, set_on_click-KeepsId, set_html-KeepsId}
use inroa.Page.Ids.{ids, ids-update_page, ids-append_row, map-remove_at}
use inroa.Standard.Table.{Table, view, with_row, without, Edits, add, remove, Edits-SameGrowth}
use inroa.Update.{Transport, open_ajax, Change}
use inroa.Standard.{
  Request, State, Run, Acao, acao_exibe_text, acao_exibe_text_atributo, update_padrao,
  update_atributo, deleta_atributo, novo_atributo, element, field, show, remove_linha,
  processo_ajax, after_response, on_ready_state_change,
}
use inroa.Standard.Handlers.{
  set_disabled, cancelar, set_linha, insert_row, add_row, hook_link, adiciona_atributo, exibe_text,
  exibe_text_atributo, salvar_base, salvar_atributo, salvar_novo_atributo, confirma_exclusao,
  new_row,
}
use inroa.Standard.Events.{Event, handle, step, run_events, set_linha_event}

-- From one state to another, the counter and the number of rows grow by the same integer, and the
-- table stays the table.
pub record SameOffset (s t : State) : Type 0 where
  pub table : t.page.table_id ≡ s.page.table_id
  pub offset :
      pos_part t.linha_js + neg_part s.linha_js + length s.page.rows
      ≡ pos_part s.linha_js + neg_part t.linha_js + length t.page.rows

-- From one state to another, the table stays the table, and is edited as it may be.
pub record Follows (s t : State) : Type 0 where
  pub table : t.page.table_id ≡ s.page.table_id
  pub edits : Edits (view s) (view t)

pub Follows-SameOffset : {s t : State} → Follows s t → SameOffset s t
Follows-SameOffset {s} {t} h = record {
  table = h.table;
  offset = omega (
    arith,
    Edits-SameGrowth h.edits,
    length-map (map Element.id) s.page.rows,
    length-map (map Element.id) t.page.rows,
  );
}

abbrev pub table_policy : Policy State
table_policy = record {
  Allows = λ s t. s.page.table_id ≡ codes "tabela" → Follows s t;
  stays = λ s table. record { table = refl; edits = here };
  trans = λ s t u first second table.
      let a = first table in
      let b = second (a.table ∙ table) in
      record { table = b.table ∙ a.table; edits = Reach-trans a.edits b.edits };
}

-- A state that shows the same table.
unchanged-Follows :
    (s t : State) → t.page.table_id ≡ s.page.table_id → view t ≡ view s → Follows s t
unchanged-Follows s t table same = record {
  table = table;
  edits = subst (λ (v : Table). Edits (view s) v) (sym same) here;
}

-- A change of the variables other than the counter, of the buttons and of the requests.
pub modify-Keeps :
    (f : State → State)
    → ((s : State) → ((f s).page ≡ s.page) × ((f s).linha_js ≡ s.linha_js))
    → Keeps table_policy (modify f)
modify-Keeps f h = record {
  allows = λ s table. unchanged-Follows s (f s) (ap Page.table_id (h s).0) (
      ap₂ (λ (page : Page) (linha : ℤ). record { rows = ids page; linha = linha }) (h s).0 (h s).1);
}

pub update-Keeps :
    (node : ℕ) (f : Element → Element)
    → KeepsId f
    → Keeps table_policy (modify λ s. record s { page = update_page node f s.page })
update-Keeps node f keeps = record {
  allows = λ s table.
      unchanged-Follows s _ (update_page-rows node f s.page).0
        (ap (λ r. record { rows = r; linha = s.linha_js }) (ids-update_page node f s.page keeps));
}

removed-Follows :
    (linha : ℕ) (s : State)
    → is_below linha (length s.page.rows) ≡ true
    → Follows s (record s {
      page = record s.page { rows = remove_at linha s.page.rows };
      linha_js = decrement s.linha_js;
    })
unfolding without
removed-Follows linha s below = record {
  table = refl;
  edits =
      next (remove linha (ap (is_below linha) (length-map (map Element.id) s.page.rows) ∙ below)) (
        subst
          (λ (r : List (List Text)).
            Edits (without linha (view s)) (record { rows = r; linha = decrement s.linha_js }))
          (sym (map-remove_at (map Element.id) linha s.page.rows)) here);
}

pub remove_linha-Keeps : (linha : ℕ) → Keeps table_policy (remove_linha (codes "tabela") linha)
unfolding remove_linha
remove_linha-Keeps linha = record {
  allows = λ s table. removed s (delete_row (codes "tabela") linha s.page) refl;
}
  where
    removed :
        (s : State) (r : Result Page)
        → delete_row (codes "tabela") linha s.page ≡ r
        → Follows s
            (resume
              (λ page. modify λ t. record t { page = page; linha_js = decrement t.linha_js })
              (r, s)).1
    removed s (throws f) e = record { table = refl; edits = here }
    removed s (ok page) e =
        let (same, below) = delete_row-ok (codes "tabela") linha s.page page e in
        rw same (removed-Follows linha s below)

pub processo_ajax-Keeps :
    (has : Transport → Bool) (id_div id novo valor_anterior : Text) (acao : Acao) (atributo : Text)
    → Keeps table_policy (processo_ajax has id_div id novo valor_anterior acao atributo)
unfolding processo_ajax
processo_ajax-Keeps has id_div id novo valor_anterior acao atributo = >>=-Keeps get _ get-Keeps λ s.
    >>=-Keeps (some_or_fail (open_ajax has)) _ (some_or_fail-Keeps _)
      λ _. modify-Keeps _ (λ t. (refl, refl))

pub element-Keeps : (id : Text) → Keeps table_policy (element id)
element-Keeps id = read-Keeps λ s. find_id id (all_elements s.page)

pub field-Keeps : (id : Text) → Keeps table_policy (field id)
field-Keeps id = read-Keeps λ s. find_field id (all_elements s.page)

pub show-Keeps :
    (fields_of : Text → List (Text × Text)) (target : Option ℕ) (html : Text)
    → Keeps table_policy (show fields_of target html)
show-Keeps fields_of none html = some_or_fail-Keeps {A = Unit} none
show-Keeps fields_of (some node) html =
    update-Keeps node (set_html fields_of html) (set_html-KeepsId fields_of html)

pub set_disabled-Keeps : (v : Bool) → Keeps table_policy (modify (set_disabled v))
set_disabled-Keeps v = modify-Keeps (set_disabled v) unchanged
  where
    with_botao :
        (s : State) (botao : Option ℕ)
        → s.botao ≡ botao
        → ((set_disabled v s).page ≡ s.page) × ((set_disabled v s).linha_js ≡ s.linha_js)
    with_botao s none e = rw e (refl, refl)
    with_botao s (some b) e = rw e (refl, refl)

    unchanged :
        (s : State)
        → ((set_disabled v s).page ≡ s.page) × ((set_disabled v s).linha_js ≡ s.linha_js)
    unchanged s = with_botao s s.botao refl

pub text_eq-tabela :
    (s : State) → s.page.table_id ≡ codes "tabela" → text_eq (codes "tabela") s.page.table_id ≡ true
text_eq-tabela s table = (text_eq_iff (codes "tabela") s.page.table_id).1 (sym table)

pub add_row-Keeps : Keeps table_policy add_row
unfolding new_row
add_row-Keeps = record {
  allows = λ s table.
      let rows = append_row-rows (new_row (int_text (increment s.linha_js))) s.page in
      rw (text_eq-tabela s table) (record {
        table = rows.0;
        edits = next add (
            subst
              (λ (r : List (List Text)).
                Edits (with_row (view s)) (record { rows = r; linha = increment s.linha_js }))
              (sym (ids-append_row (new_row (int_text (increment s.linha_js))) s.page)) here);
      });
}

pub hook_link-Keeps : Keeps table_policy hook_link
hook_link-Keeps =
    >>=-Keeps (field (codes "salvar")) _ (field-Keeps (codes "salvar"))
      λ (value, x). update-Keeps x.node set_on_click set_on_click-KeepsId

pub adiciona_atributo-Keeps : (id_padrao : Text) → Keeps table_policy (adiciona_atributo id_padrao)
unfolding adiciona_atributo
adiciona_atributo-Keeps id_padrao = >>=-Keeps add_row _ add_row-Keeps λ _.
    >>=-Keeps (modify _) (λ _. hook_link) (modify-Keeps _ (λ t. (refl, refl))) λ _. hook_link-Keeps
