-- ===== src/Page/Links.antt =====
-- The links that save: where they are found, and which of them have a handler.
use Prim.Native.Nat.{ℕ, ◌≤◌, ◌<◌}
use mathlib.Core.Path.{◌≡◌, refl, sym, ap, subst, ◌∙◌}
use mathlib.Core.Logic.{inl, inr}
use mathlib.Core.Bool.{true, false}
use mathlib.Core.Option.{Option, none, some}
use mathlib.Core.List.{List, [], ◌∷◌, ◌++◌, map}
use native.Mathlib.Omega.{arith}
use inroa.Base.{Text, ◌==◌, ==_iff, All, Bool-cases, Option-cases, text_eq}
use inroa.Page.{Element, find_field, find_id, has_handler, lookup_field, set_on_click, update_node}
use inroa.Page.Elements.{KeepsId, update_node-KeepsId}

-- A field is found after a change that keeps the fields.
pub find_field-map :
    (f : Element → Element) (id : Text) (xs : List Element) (v : Text) (x : Element)
    → ((y : Element) → (f y).fields ≡ y.fields)
    → find_field id xs ≡ some (v, x)
    → find_field id (map f xs) ≡ some (v, f x)
unfolding find_field
find_field-map f id [] v x keeps e = cc
find_field-map f id (y ∷ xs) v x keeps e = elim (Option-cases (lookup_field id y.fields)) [
  | inl without ↦
      rw (find_field, ap (lookup_field id) (keeps y) ∙ without)
        (find_field-map f id xs v x keeps (rw (find_field, without) at e))
  | inr (w, here) ↦
      let same : ◌≡◌ {A = Option (Text × Element)} (some (w, y)) (some (v, x)) =
        rw (find_field, here) at e in
      let value : w ≡ v = cc in
      let element : y ≡ x = cc in
      rw (find_field, ap (lookup_field id) (keeps y) ∙ here) (rw (value, element) refl)
]

pub update_node-fields :
    (node : ℕ) (x : Element) → (update_node node set_on_click x).fields ≡ x.fields
update_node-fields node x = elim (Bool-cases (x.node == node)) [
  | inl here ↦ rw here refl
  | inr other ↦ rw other refl
]

-- A link that was looked up has its handler, whatever comes after it on the page.
pub has_handler-set_on_click :
    (id : Text) (xs ys : List Element) (v : Text) (x : Element)
    → find_field id xs ≡ some (v, x)
    → has_handler x.node (map (update_node x.node set_on_click) xs ++ ys) ≡ true
unfolding find_field
has_handler-set_on_click id [] ys v x e = cc
has_handler-set_on_click id (y ∷ xs) ys v x e = elim (Bool-cases (y.node == x.node)) [
  | inl here ↦ rw (here, here) refl
  | inr other ↦ elim (Option-cases (lookup_field id y.fields)) [
    | inl without ↦
        rw (other, other) (has_handler-set_on_click id xs ys v x (rw (find_field, without) at e))
    | inr (w, found) ↦
        let same : ◌≡◌ {A = Option (Text × Element)} (some (w, y)) (some (v, x)) =
          rw (find_field, found) at e in
        let element : y ≡ x = cc in
        let here : (y.node == x.node) ≡ true = (==_iff y.node x.node).1 (ap Element.node element) in
        cc
  ]
]

-- No link has a handler in elements without one, and none in elements with other nodes.
pub has_handler-none :
    (node : ℕ) (xs : List Element) → All (λ x. x.on_click ≡ false) xs → has_handler node xs ≡ false
has_handler-none node [] h = refl
has_handler-none node (x ∷ xs) (h, hs) = elim (Bool-cases (x.node == node)) [
  | inl here ↦ rw here h
  | inr other ↦ rw other (has_handler-none node xs hs)
]

pub has_handler-below :
    (node m : ℕ) (xs ys : List Element)
    → All (λ x. x.node < m) xs
    → m ≤ node
    → has_handler node (xs ++ ys) ≡ has_handler node ys
has_handler-below node m [] ys h le = refl
has_handler-below node m (x ∷ xs) ys (h, hs) le =
    let rest = has_handler-below node m xs ys hs le in ground (arith, rest)

-- A change of a later element leaves earlier ones as they are.
pub update_node-below :
    (node m : ℕ) (f : Element → Element) (xs : List Element)
    → All (λ x. x.node < m) xs
    → m ≤ node
    → map (update_node node f) xs ≡ xs
update_node-below node m f [] h le = refl
update_node-below node m f (x ∷ xs) (h, hs) le =
    let rest = update_node-below node m f xs hs le in ground (arith, rest)

-- A change of an earlier element leaves later ones as they are.
pub update_node-above :
    (node m : ℕ) (f : Element → Element) (xs : List Element)
    → All (λ x. m ≤ x.node) xs
    → node < m
    → map (update_node node f) xs ≡ xs
update_node-above node m f [] h lt = refl
update_node-above node m f (x ∷ xs) (h, hs) lt =
    let rest = update_node-above node m f xs hs lt in ground (arith, rest)

-- A change that sets no handler leaves elements without one.
pub update_node-off :
    (node : ℕ) (f : Element → Element) (xs : List Element)
    → ((x : Element) → x.on_click ≡ false → (f x).on_click ≡ false)
    → All (λ x. x.on_click ≡ false) xs
    → All (λ x. x.on_click ≡ false) (map (update_node node f) xs)
update_node-off node f [] keeps h = tt
update_node-off node f (x ∷ xs) keeps (h, hs) = (
  elim (Bool-cases (x.node == node)) [ inl here ↦ rw here (keeps x h) | inr other ↦ rw other h ],
  update_node-off node f xs keeps hs,
)

-- What holds of all elements holds of one with a field that was looked up.
pub find_field-All :
    (P : Element → Type 0) (id : Text) (xs : List Element) (v : Text) (x : Element)
    → All P xs
    → find_field id xs ≡ some (v, x)
    → P x
unfolding find_field
find_field-All P id [] v x h e = cc
find_field-All P id (y ∷ xs) v x (h, hs) e = elim (Option-cases (lookup_field id y.fields)) [
  | inl without ↦ find_field-All P id xs v x hs (rw (find_field, without) at e)
  | inr (w, here) ↦
      let same : ◌≡◌ {A = Option (Text × Element)} (some (w, y)) (some (v, x)) =
        rw (find_field, here) at e in
      let element : y ≡ x = cc in subst P element h
]

-- An id that is not found is looked for further on.
pub find_id-append_none :
    (id : Text) (xs ys : List Element)
    → find_id id xs ≡ none
    → find_id id (xs ++ ys) ≡ find_id id ys
unfolding find_id
find_id-append_none id [] ys e = refl
find_id-append_none id (x ∷ xs) ys e = elim (Bool-cases (text_eq x.id id)) [
  | inl here ↦ cc (rw (find_id, here) at e)
  | inr later ↦ rw (find_id, later) (find_id-append_none id xs ys (rw (find_id, later) at e))
]

pub update_node-nodes :
    (P : ℕ → Type 0) (node : ℕ) (f : Element → Element) (xs : List Element)
    → KeepsId f
    → All (λ x. P x.node) xs
    → All (λ x. P x.node) (map (update_node node f) xs)
update_node-nodes P node f [] keeps h = tt
update_node-nodes P node f (x ∷ xs) keeps (h, hs) = (
  subst P (sym ((update_node-KeepsId node f keeps).node x)) h,
  update_node-nodes P node f xs keeps hs,
)
