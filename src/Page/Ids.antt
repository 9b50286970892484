-- ===== src/Page/Ids.antt =====
-- The ids in the rows of a page's table, and rows that are removed.
use Prim.Native.Nat.{ℕ, zero, suc, ◌<◌}
use mathlib.Core.Path.{◌≡◌, refl, ap, ◌∙◌}
use mathlib.Core.Bool.{true}
use mathlib.Core.List.{List, [], ◌∷◌, ◌++◌, map, map-append}
use native.Mathlib.Omega.{arith}
use inroa.Base.{Text, length, map-map_eq}
use inroa.Page.{
  Element, Page, number_nodes, append_row, update_node, update_page, remove_at, is_below,
}
use inroa.Page.Elements.{KeepsId, update_node-KeepsId}

-- The ids of the elements in each row.
abbrev pub ids : Page → List (List Text)
ids page = map (map Element.id) page.rows

pub ids-update_page :
    (node : ℕ) (f : Element → Element) (page : Page)
    → KeepsId f
    → ids (update_page node f page) ≡ ids page
unfolding update_page
ids-update_page node f page keeps =
    map-map_eq (map Element.id) (map (update_node node f)) (map Element.id) page.rows (λ row.
      map-map_eq Element.id (update_node node f) Element.id row
        (update_node-KeepsId node f keeps).id)

pub ids-append_row :
    (row : List Element) (page : Page)
    → ids (append_row row page) ≡ ids page ++ map Element.id row ∷ []
unfolding append_row
ids-append_row row page =
    map-append (map Element.id) page.rows _
    ∙ ap (λ r. ids page ++ r ∷ []) (numbered page.next_node row)
  where
    numbered : (n : ℕ) (xs : List Element) → map Element.id (number_nodes n xs) ≡ map Element.id xs
    numbered n [] = refl
    numbered n (x ∷ xs) = ap (λ l. x.id ∷ l) (numbered (suc n) xs)

pub map-remove_at :
    {A B : Type 0} (f : A → B) (i : ℕ) (xs : List A)
    → map f (remove_at i xs) ≡ remove_at i (map f xs)
unfolding remove_at
map-remove_at f i [] = refl
map-remove_at f zero (x ∷ xs) = refl
map-remove_at f (suc i) (x ∷ xs) = ap (λ l. f x ∷ l) (map-remove_at f i xs)

pub remove_at-append :
    {A : Type 0} (i : ℕ) (xs ys : List A)
    → is_below i (length xs) ≡ true
    → remove_at i (xs ++ ys) ≡ remove_at i xs ++ ys
unfolding remove_at
remove_at-append zero [] ys h = cc
remove_at-append (suc i) [] ys h = cc
remove_at-append zero (x ∷ xs) ys h = refl
remove_at-append (suc i) (x ∷ xs) ys h = ap (λ l. x ∷ l) (remove_at-append i xs ys h)

pub remove_at-length :
    {A : Type 0} (xs : List A) (y : A) → remove_at (length xs) (xs ++ y ∷ []) ≡ xs
unfolding remove_at
remove_at-length [] y = refl
remove_at-length (x ∷ xs) y = ap (λ l. x ∷ l) (remove_at-length xs y)

pub is_below-lt : (i n : ℕ) → i < n → is_below i n ≡ true
is_below-lt zero zero h = absurd (omega arith)
is_below-lt zero (suc n) h = refl
is_below-lt (suc i) zero h = absurd (omega arith)
is_below-lt (suc i) (suc n) h = is_below-lt i n (omega arith)
