-- ===== src/Page/Rows.antt =====
-- How the operations on a page change the number of its rows.
use Prim.Native.Nat.{ℕ, zero, suc, ◌+◌}
use mathlib.Core.Path.{◌≡◌, refl, ap}
use mathlib.Core.Logic.{inl, inr}
use mathlib.Core.Bool.{true}
use mathlib.Core.List.{List, [], ◌∷◌, map}
use native.Mathlib.Omega.{arith}
use inroa.Base.{Text, length, length-append, ok, Bool-cases, text_eq, text_eq_self}
use inroa.Page.{
  Element, Page, update_page, update_node, append_row, remove_at, is_below, delete_row,
}

pub length-map : {A B : Type 0} (f : A → B) (xs : List A) → length (map f xs) ≡ length xs
length-map f [] = refl
length-map f (x ∷ xs) = ap suc (length-map f xs)

pub length-remove_at :
    {A : Type 0} (i : ℕ) (xs : List A)
    → is_below i (length xs) ≡ true
    → length (remove_at i xs) + 1 ≡ length xs
unfolding remove_at
length-remove_at zero [] h = cc
length-remove_at (suc i) [] h = cc
length-remove_at zero (x ∷ xs) h = omega arith
length-remove_at (suc i) (x ∷ xs) h = omega (arith, length-remove_at i xs h)

-- `update_page` leaves the table and the number of rows as they are.
pub update_page-rows :
    (node : ℕ) (f : Element → Element) (page : Page)
    → ((update_page node f page).table_id ≡ page.table_id)
      × (length (update_page node f page).rows ≡ length page.rows)
unfolding update_page
update_page-rows node f page = (refl, length-map (map (update_node node f)) page.rows)

pub append_row-rows :
    (row : List Element) (page : Page)
    → ((append_row row page).table_id ≡ page.table_id)
      × (length (append_row row page).rows ≡ length page.rows + 1)
unfolding append_row
append_row-rows row page = (refl, length-append page.rows _)

-- In the table, a row that exists is deleted.
pub delete_row-table :
    (i : ℕ) (page : Page)
    → is_below i (length page.rows) ≡ true
    → delete_row page.table_id i page ≡ ok (record page { rows = remove_at i page.rows })
unfolding delete_row
delete_row-table i page below = rw (text_eq_self page.table_id, below) refl

-- A row that is deleted is taken out of the rows.
pub delete_row-ok :
    (name : Text) (i : ℕ) (page page' : Page)
    → delete_row name i page ≡ ok page'
    → (page' ≡ record page { rows = remove_at i page.rows })
      × (is_below i (length page.rows) ≡ true)
unfolding delete_row
delete_row-ok name i page page' e = elim (Bool-cases (text_eq name page.table_id)) [
  | inr other ↦ cc (rw other at e)
  | inl named ↦ elim (Bool-cases (is_below i (length page.rows))) [
    | inr out ↦ cc (rw (named, out) at e)
    | inl below ↦ (cc (rw (named, below) at e), below)
  ]
]
