-- ===== src/Mapping/Table.antt =====
-- What the editor of mappings promises about the table: the ids of its rows and the counter `totals`,
-- apart from the page.
pub mod Steps
pub mod Runs
use Prim.Native.Nat.{ℕ}
use mathlib.Core.Path.{◌≡◌}
use mathlib.Core.Bool.{true}
use mathlib.Core.List.{List, [], ◌∷◌, ◌++◌}
use inroa.Base.{Text, codes, decimal, length, ℤ, increment, decrement, int_text}
use inroa.Base.Reach.{Reach}
use inroa.Page.{is_below, remove_at}
use inroa.Page.Ids.{ids}
use inroa.Mapping.{State}

pub record Table : Type 0 where
  pub rows : List (List Text)
  pub total : ℤ

-- The table that a state shows.
abbrev pub view : State → Table
view s = record { rows = ids s.page; total = s.totals }

-- The ids in a new row, the last two cells of which have none, and in a row of a complementary
-- mapping.
abbrev pub new_ids : Text → List Text
new_ids total = (codes "result" ++ total) ∷ (codes "destino" ++ total) ∷ [] ∷ [] ∷ []

abbrev pub composto_ids : ℕ → List Text
composto_ids linha =
    (codes "resultComplementar" ++ decimal linha)
    ∷ (codes "destinoComplementar" ++ decimal linha)
    ∷ []

-- A row for the next number, and one for a complementary mapping, at the end.
abbrev pub with_row : Table → Table
with_row t = record {
  rows = t.rows ++ new_ids (int_text (increment t.total)) ∷ [];
  total = increment t.total;
}

abbrev pub with_composto : ℕ → Table → Table
with_composto linha t = record t { rows = t.rows ++ composto_ids linha ∷ [] }

-- A row less, which is not counted, and which is.
unfoldable pub without : ℕ → Table → Table
unfolding remove_at
without i t = record t { rows = remove_at i t.rows }

abbrev pub count_down : Table → Table
count_down t = record t { total = decrement t.total }

-- What may happen to the table, once and any number of times.
pub data Edit : Table → Table → Type 0 where
  add : {t : Table} → Edit t (with_row t)
  compose : {t : Table} (linha : ℕ) → Edit t (with_composto linha t)
  drop : {t : Table} (i : ℕ) → is_below i (length t.rows) ≡ true → Edit t (without i t)
  remove :
      {t : Table} (i : ℕ) → is_below i (length t.rows) ≡ true → Edit t (count_down (without i t))

abbrev pub Edits : Table → Table → Type 0
Edits = Reach Edit
