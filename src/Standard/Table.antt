-- ===== src/Standard/Table.antt =====
-- What the editor promises about the table: the ids of its rows and the counter `linhaJS`, apart from
-- the page.
use Prim.Native.Nat.{ℕ, ◌+◌}
use mathlib.Core.Path.{◌≡◌}
use mathlib.Core.Bool.{true}
use mathlib.Core.List.{List, [], ◌∷◌, ◌++◌}
use native.Mathlib.Omega.{arith}
use inroa.Base.{
  Text, codes, length, length-append, ℤ, pos_part, neg_part, increment, decrement, increment_parts,
  decrement_parts, int_text,
}
use inroa.Base.Reach.{Reach, here, next}
use inroa.Page.{is_below, remove_at}
use inroa.Page.Rows.{length-remove_at}
use inroa.Page.Ids.{ids}
use inroa.Standard.{State}

pub record Table : Type 0 where
  pub rows : List (List Text)
  pub linha : ℤ

-- The table that a state shows.
abbrev pub view : State → Table
view s = record { rows = ids s.page; linha = s.linha_js }

-- The ids in a new row.
abbrev pub new_ids : Text → List Text
new_ids linha = (codes "result" ++ linha) ∷ (codes "result" ++ (linha ++ codes "D")) ∷ []

-- A row for the next number at the end, and a row less.
abbrev pub with_row : Table → Table
with_row t = record {
  rows = t.rows ++ new_ids (int_text (increment t.linha)) ∷ [];
  linha = increment t.linha;
}

unfoldable pub without : ℕ → Table → Table
unfolding remove_at
without i t = record { rows = remove_at i t.rows; linha = decrement t.linha }

-- What may happen to the table, once and any number of times.
pub data Edit : Table → Table → Type 0 where
  add : {t : Table} → Edit t (with_row t)
  remove : {t : Table} (i : ℕ) → is_below i (length t.rows) ≡ true → Edit t (without i t)

abbrev pub Edits : Table → Table → Type 0
Edits = Reach Edit

-- From one table to another, the counter and the number of rows grow by the same integer.
abbrev pub SameGrowth : Table → Table → Type 0
SameGrowth t u =
    pos_part u.linha + neg_part t.linha + length t.rows
    ≡ pos_part t.linha + neg_part u.linha + length u.rows

Edit-SameGrowth : {t u : Table} → Edit t u → SameGrowth t u
unfolding without
Edit-SameGrowth (add {t}) = omega (
  arith,
  increment_parts t.linha,
  length-append t.rows (new_ids (int_text (increment t.linha)) ∷ []),
)
Edit-SameGrowth (remove {t} i below) =
    omega (arith, decrement_parts t.linha, length-remove_at i t.rows below)

pub Edits-SameGrowth : {t u : Table} → Edits t u → SameGrowth t u
Edits-SameGrowth here = omega arith
Edits-SameGrowth (next e h) = omega (arith, Edit-SameGrowth e, Edits-SameGrowth h)
