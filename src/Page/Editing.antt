-- ===== src/Page/Editing.antt =====
-- An element whose content is replaced and put back.
use Prim.Native.Nat.{ℕ}
use mathlib.Core.Path.{◌≡◌, refl, sym, ap, ◌∙◌}
use mathlib.Core.Logic.{inl, inr}
use mathlib.Core.Bool.{Bool, false}
use mathlib.Core.Option.{some}
use mathlib.Core.List.{List}
use inroa.Base.{Text, ◌==◌, Bool-cases}
use inroa.Page.{Element, Page, all_elements, assign, find_id, set_html, update_page}
use inroa.Page.Elements.{
  IsOnly, find_id-update_page, set_html-KeepsId, update_page-IsOnly, update_page-update_page,
}

-- The page when a text is shown in the element `node`.
abbrev pub shown : (Text → List (Text × Text)) → ℕ → Text → Page → Page
shown fields_of node text = update_page node (set_html fields_of text)

-- The element holds what its HTML brings, and nothing else.
pub record IsPlain (fields_of : Text → List (Text × Text)) (x : Element) : Type 0 where
  pub fields : fields_of x.inner_html ≡ x.fields
  pub on_click : x.on_click ≡ false

set_html-IsPlain :
    (fields_of : Text → List (Text × Text)) (x : Element)
    → IsPlain fields_of x
    → set_html fields_of x.inner_html x ≡ x
set_html-IsPlain fields_of x plain =
    ap (λ (f : List (Text × Text)). record x { fields = f; on_click = false }) plain.fields
    ∙ ap (λ (b : Bool). record x { on_click = b }) (sym plain.on_click)

-- Of two assignments the later one counts.
pub assign-assign : (b : ℕ) (v w : Bool) (f : ℕ → Bool) → assign b v (assign b w f) ≡ assign b v f
assign-assign b v w f i n = pointwise n i
  where
    pointwise : (n : ℕ) → assign b v (assign b w f) n ≡ assign b v f n
    pointwise n = elim (Bool-cases (n == b)) [ inl here ↦ rw here refl | inr other ↦ rw other refl ]

module _ (fields_of : Text → List (Text × Text)) (id : Text) (x : Element) (page : Page) where
  -- A page that differs from the first one in the content of the element only.
  pub record IsEdited (u : Page) : Type 0 where
    pub erased : (h : Text) → shown fields_of x.node h u ≡ shown fields_of x.node h page
    pub found : (y : Element) × (find_id id (all_elements u) ≡ some y) × (y.node ≡ x.node)

  pub self-IsEdited : find_id id (all_elements page) ≡ some x → IsEdited page
  self-IsEdited e = record { erased = λ h. refl; found = (x, e, refl) }

  pub shown-IsEdited : (h : Text) (u : Page) → IsEdited u → IsEdited (shown fields_of x.node h u)
  shown-IsEdited h u edited =
      let (y, e, n) = edited.found in
      let (z, e', n') =
        find_id-update_page x.node (set_html fields_of h) id u y (set_html-KeepsId fields_of h) e in
      record {
        erased = λ k.
            update_page-update_page x.node (set_html fields_of k) (set_html fields_of h) u
              (set_html-KeepsId fields_of h) (λ y. refl)
            ∙ edited.erased k;
        found = (z, e', n' ∙ n);
      }

  -- A content that is shown in the element that is found now.
  pub shown-found :
      (h : Text) (u : Page) (y : Element)
      → IsEdited u
      → y.node ≡ x.node
      → shown fields_of y.node h u ≡ shown fields_of x.node h page
  shown-found h u y edited n = ap (λ node. shown fields_of node h u) n ∙ edited.erased h

  -- The content that the only element with its node has already.
  pub shown-same :
      IsPlain fields_of x → IsOnly x page → shown fields_of x.node x.inner_html page ≡ page
  shown-same plain only =
      update_page-IsOnly (set_html fields_of x.inner_html) x page only
        (set_html-IsPlain fields_of x plain)
