-- ===== src/Page/Elements.antt =====
-- How a change of one element shows in the elements of a page.
use Prim.Native.Nat.{ℕ}
use mathlib.Core.Path.{◌≡◌, refl, sym, ap, ◌∙◌}
use mathlib.Core.Logic.{inl, inr}
use mathlib.Core.Bool.{true}
use mathlib.Core.Option.{some}
use mathlib.Core.List.{List, [], ◌∷◌, ◌++◌, map, map-append, append_assoc}
use inroa.Base.{
  Text, All, All-append, Bool-cases, if◌then◌else◌, ◌==◌, ==_iff, text_eq, Option-cases, map-map_eq,
  map_fixed,
}
use inroa.Page.{
  set_html, set_on_click, Element, Page, row_elements, all_elements, number_nodes, append_row,
  lookup_field, find_field, find_id, update_node, update_page,
}

-- The element is the only one with its node.
abbrev pub IsOnly : Element → Page → Type 0
IsOnly x page = All (λ y. y.node ≡ x.node → y ≡ x) (all_elements page)

-- A change that keeps what an element is found by.
pub record KeepsId (f : Element → Element) : Type 0 where
  pub node : (x : Element) → (f x).node ≡ x.node
  pub id : (x : Element) → (f x).id ≡ x.id

pub set_on_click-KeepsId : KeepsId set_on_click
set_on_click-KeepsId = record { node = λ x. refl; id = λ x. refl }

pub set_html-KeepsId :
    (fields_of : Text → List (Text × Text)) (h : Text) → KeepsId (set_html fields_of h)
set_html-KeepsId fields_of h = record { node = λ x. refl; id = λ x. refl }

row_elements-map :
    (f : Element → Element) (rows : List (List Element))
    → row_elements (map (map f) rows) ≡ map f (row_elements rows)
row_elements-map f [] = refl
row_elements-map f (row ∷ rows) =
    ap (λ l. map f row ++ l) (row_elements-map f rows) ∙ sym (map-append f row (row_elements rows))

pub update_page-all_elements :
    (node : ℕ) (f : Element → Element) (page : Page)
    → all_elements (update_page node f page) ≡ map (update_node node f) (all_elements page)
unfolding update_page
update_page-all_elements node f page =
    ap (λ l. map (update_node node f) page.elements ++ l)
      (row_elements-map (update_node node f) page.rows)
    ∙ sym (map-append (update_node node f) page.elements (row_elements page.rows))

pub update_node-KeepsId :
    (node : ℕ) (f : Element → Element) → KeepsId f → KeepsId (update_node node f)
update_node-KeepsId node f keeps = record {
  node = λ x. elim (Bool-cases (x.node == node)) [
    | inl same ↦ rw (update_node, same) (keeps.node x)
    | inr other ↦ rw (update_node, other) refl
  ];
  id = λ x. elim (Bool-cases (x.node == node)) [
    | inl same ↦ rw (update_node, same) (keeps.id x)
    | inr other ↦ rw (update_node, other) refl
  ];
}

find_id-map :
    (f : Element → Element) (keeps : KeepsId f) (id : Text) (xs : List Element) (x : Element)
    → find_id id xs ≡ some x
    → find_id id (map f xs) ≡ some (f x)
unfolding find_id
find_id-map f keeps id [] x e = cc
find_id-map f keeps id (y ∷ xs) x e = elim (Bool-cases (text_eq y.id id)) [
  | inl here ↦
      let same : y ≡ x = cc (rw (find_id, here) at e) in
      rw (find_id, ap (λ i. text_eq i id) (keeps.id y) ∙ here)
        (ap (λ (z : Element). some (f z)) same)
  | inr later ↦
      rw (find_id, ap (λ i. text_eq i id) (keeps.id y) ∙ later)
        (find_id-map f keeps id xs x (rw (find_id, later) at e))
]

-- An element is still found by its id after a change that keeps it.
pub find_id-update_page :
    (node : ℕ) (f : Element → Element) (id : Text) (page : Page) (x : Element)
    → KeepsId f
    → find_id id (all_elements page) ≡ some x
    → (y : Element) × (find_id id (all_elements (update_page node f page)) ≡ some y)
      × (y.node ≡ x.node)
find_id-update_page node f id page x keeps e =
    let kept = update_node-KeepsId node f keeps in
    (
      update_node node f x,
      ap (find_id id) (update_page-all_elements node f page)
          ∙ find_id-map (update_node node f) kept id (all_elements page) x e,
      kept.node x,
    )

update_node-update_node :
    (node : ℕ) (f g : Element → Element) (x : Element)
    → KeepsId g
    → ((y : Element) → f (g y) ≡ f y)
    → update_node node f (update_node node g x) ≡ update_node node f x
update_node-update_node node f g x keeps e = elim (Bool-cases (x.node == node)) [
  | inl same ↦
      let still : ((g x).node == node) ≡ true = ap (λ n. n == node) (keeps.node x) ∙ same in
      ap (update_node node f) (rw (update_node, same) refl)
      ∙ (ap (λ b. if b then f (g x) else g x) still ∙ (e x ∙ rw (update_node, same) refl))
  | inr other ↦ ap (update_node node f) (rw (update_node, other) refl)
]

-- A change that does not depend on what the one before it did to the element undoes it.
pub update_page-update_page :
    (node : ℕ) (f g : Element → Element) (page : Page)
    → KeepsId g
    → ((y : Element) → f (g y) ≡ f y)
    → update_page node f (update_page node g page) ≡ update_page node f page
unfolding update_page
update_page-update_page node f g page keeps e =
    let both = λ (x : Element). update_node-update_node node f g x keeps e in
    rw
      (
        map-map_eq (update_node node f) (update_node node g) (update_node node f) page.elements
            both,
        map-map_eq (map (update_node node f)) (map (update_node node g)) (map (update_node node f))
            page.rows
            (λ row.
              map-map_eq (update_node node f) (update_node node g) (update_node node f) row both),
      )
      refl

fixed_rows :
    (f : Element → Element) (rows : List (List Element))
    → All (λ x. f x ≡ x) (row_elements rows)
    → All (λ row. map f row ≡ row) rows
fixed_rows f [] h = tt
fixed_rows f (row ∷ rows) h =
    let (first, rest) = (All-append (λ x. f x ≡ x) row (row_elements rows)).0 h in
    (map_fixed f row first, fixed_rows f rows rest)

-- A change that leaves the element with the node as it is leaves the page as it is.
pub update_page-IsOnly :
    (f : Element → Element) (x : Element) (page : Page)
    → IsOnly x page
    → f x ≡ x
    → update_page x.node f page ≡ page
unfolding update_page
update_page-IsOnly f x page only e =
    let (first, rest) =
      (All-append (λ y. update_node x.node f y ≡ y) page.elements (row_elements page.rows)).0
        (fixed (all_elements page) only) in
    rw
      (
        map_fixed (update_node x.node f) page.elements first,
        map_fixed (map (update_node x.node f)) page.rows
            (fixed_rows (update_node x.node f) page.rows rest),
      )
      refl
  where
    fixed :
        (ys : List Element)
        → All (λ y. y.node ≡ x.node → y ≡ x) ys
        → All (λ y. update_node x.node f y ≡ y) ys
    fixed [] h = tt
    fixed (y ∷ ys) (h, hs) = (
      elim (Bool-cases (y.node == x.node)) [
        | inl same ↦
            let alike : y ≡ x = h ((==_iff y.node x.node).0 same) in
            rw (update_node, same) (ap f alike ∙ (e ∙ sym alike))
        | inr other ↦ rw (update_node, other) refl
      ],
      fixed ys hs,
    )

-- The elements of a page after a row was added.
row_elements-append :
    (rows : List (List Element)) (row : List Element)
    → row_elements (rows ++ row ∷ []) ≡ row_elements rows ++ (row ++ [])
row_elements-append [] row = refl
row_elements-append (r ∷ rows) row =
    ap (λ l. r ++ l) (row_elements-append rows row)
    ∙ sym (append_assoc r (row_elements rows) (row ++ []))

pub all_elements-append_row :
    (row : List Element) (page : Page)
    → all_elements (append_row row page)
      ≡ all_elements page ++ (number_nodes page.next_node row ++ [])
unfolding append_row
all_elements-append_row row page =
    ap (λ l. page.elements ++ l) (row_elements-append page.rows (number_nodes page.next_node row))
    ∙ sym (
        append_assoc page.elements (row_elements page.rows) (number_nodes page.next_node row ++ []))

-- A field that is found is found in a longer list.
pub find_field-append :
    (id : Text) (xs ys : List Element) (r : Text × Element)
    → find_field id xs ≡ some r
    → find_field id (xs ++ ys) ≡ some r
unfolding find_field
find_field-append id [] ys r e = cc
find_field-append id (x ∷ xs) ys r e = elim (Option-cases (lookup_field id x.fields)) [
  | inl without ↦
      rw (find_field, without) (find_field-append id xs ys r (rw (find_field, without) at e))
  | inr (v, here) ↦ let same = rw (find_field, here) at e in rw (find_field, here) same
]
