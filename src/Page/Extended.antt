-- ===== src/Page/Extended.antt =====
-- A page to which a row was added, whose link to save is looked up: the first one on the page gets
-- the handler.
use Prim.Native.Nat.{ℕ, suc, ◌≤◌, ◌<◌}
use mathlib.Core.Path.{◌≡◌, ap, ◌∙◌}
use mathlib.Core.Bool.{true, false}
use mathlib.Core.Option.{some}
use mathlib.Core.List.{List, [], ◌∷◌, ◌++◌, map, map-append, append-nil}
use native.Mathlib.Omega.{arith}
use inroa.Base.{Text, All}
use inroa.Page.{
  Element, Page, all_elements, append_row, find_field, has_handler, number_nodes, set_on_click,
  update_node, update_page,
}
use inroa.Page.Elements.{
  all_elements-append_row, find_field-append, set_on_click-KeepsId, update_page-all_elements,
}
use inroa.Page.Links.{
  find_field-All, find_field-map, has_handler-below, has_handler-none, has_handler-set_on_click,
  update_node-above, update_node-below, update_node-fields, update_node-nodes, update_node-off,
}

-- Elements are numbered as they came.
abbrev pub IsNumbered : Page → Type 0
IsNumbered page = All (λ z. z.node < page.next_node) (all_elements page)

number_nodes-above :
    (n m : ℕ) (row : List Element) → m ≤ n → All (λ z. m ≤ z.node) (number_nodes n row)
number_nodes-above n m [] le = tt
number_nodes-above n m (x ∷ row) le = (le, number_nodes-above (suc n) m row (omega arith))

number_nodes-off :
    (n : ℕ) (row : List Element)
    → All (λ z. z.on_click ≡ false) row
    → All (λ z. z.on_click ≡ false) (number_nodes n row)
number_nodes-off n [] h = tt
number_nodes-off n (x ∷ row) (h, hs) = (h, number_nodes-off (suc n) row hs)

module _ (page : Page) (x : Element) where
  -- The elements that were on the page, with the handler.
  abbrev earlier : List Element
  earlier = map (update_node x.node set_on_click) (all_elements page)

  -- What was on the page is there, and nothing behind it has a handler.
  pub record IsExtended (u : Page) : Type 0 where
    pub row : List Element
    pub elements : all_elements u ≡ earlier ++ row
    pub off : All (λ z. z.on_click ≡ false) row

  module _ (numbered : IsNumbered page) where
    earlier-numbered : All (λ z. z.node < page.next_node) earlier
    earlier-numbered =
        update_node-nodes (λ n. n < page.next_node) x.node set_on_click (all_elements page)
          set_on_click-KeepsId numbered

    -- A row without handlers is added, and the link that is found gets one.
    pub append_row-IsExtended :
        (id w : Text) (row : List Element)
        → find_field id (all_elements page) ≡ some (w, x)
        → All (λ z. z.on_click ≡ false) row
        → IsExtended (update_page x.node set_on_click (append_row row page))
    append_row-IsExtended id w row found off =
        let before : x.node < page.next_node =
          find_field-All (λ z. z.node < page.next_node) id (all_elements page) w x numbered found in
        let added = number_nodes page.next_node row in
        record {
          row = added;
          elements =
              update_page-all_elements x.node set_on_click (append_row row page)
              ∙ (ap (map (update_node x.node set_on_click)) (
                    all_elements-append_row row page
                    ∙ ap (λ l. all_elements page ++ l) (append-nil added))
                  ∙ (map-append (update_node x.node set_on_click) (all_elements page) added
                      ∙ ap (λ l. earlier ++ l)
                          (update_node-above x.node page.next_node set_on_click added
                            (number_nodes-above page.next_node page.next_node row (omega arith))
                            before)));
          off = number_nodes-off page.next_node row off;
        }

    -- A change of a later element that sets no handler.
    pub update_page-IsExtended :
        (node : ℕ) (f : Element → Element) (u : Page)
        → page.next_node ≤ node
        → ((z : Element) → z.on_click ≡ false → (f z).on_click ≡ false)
        → IsExtended u
        → IsExtended (update_page node f u)
    update_page-IsExtended node f u le keeps extended = record {
      row = map (update_node node f) extended.row;
      elements =
          update_page-all_elements node f u
          ∙ (ap (map (update_node node f)) extended.elements
              ∙ (map-append (update_node node f) earlier extended.row
                  ∙ ap (λ l. l ++ map (update_node node f) extended.row)
                      (update_node-below node page.next_node f earlier earlier-numbered le)));
      off = update_node-off node f extended.row keeps extended.off;
    }

    -- The links of the new row have no handler.
    pub has_handler-later :
        (node : ℕ) (u : Page)
        → page.next_node ≤ node
        → IsExtended u
        → has_handler node (all_elements u) ≡ false
    has_handler-later node u le extended =
        ap (has_handler node) extended.elements
        ∙ (has_handler-below node page.next_node earlier extended.row earlier-numbered le
            ∙ has_handler-none node extended.row extended.off)

  -- The link that was found has one.
  pub has_handler-first :
      (id w : Text) (u : Page)
      → find_field id (all_elements page) ≡ some (w, x)
      → IsExtended u
      → has_handler x.node (all_elements u) ≡ true
  has_handler-first id w u found extended =
      ap (has_handler x.node) extended.elements
      ∙ has_handler-set_on_click id (all_elements page) extended.row w x found

  -- A field that was found is found, with its value.
  pub find_field-first :
      (id v : Text) (y : Element) (u : Page)
      → find_field id (all_elements page) ≡ some (v, y)
      → IsExtended u
      → find_field id (all_elements u) ≡ some (v, update_node x.node set_on_click y)
  find_field-first id v y u found extended =
      ap (find_field id) extended.elements
      ∙ find_field-append id earlier extended.row _ (
          find_field-map (update_node x.node set_on_click) id (all_elements page) v y
            (update_node-fields x.node) found)
