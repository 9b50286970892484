-- ===== src/Metadata/Outline.antt =====
-- What the lists show that `buildList` writes.
use mathlib.Core.Path.{refl, subst}
use mathlib.Core.Logic.{◌≢◌, inl, inr}
use mathlib.Core.Option.{Option, none, some}
use mathlib.Core.List.{List, [], ◌∷◌, ◌++◌}
use inroa.Base.{Text, codes, if◌then◌else◌, starts_with_http, Bool-cases, append-nil, All}
use inroa.Metadata.{
  Node, Nodes, parent, null_children, leaf, nil, cons, is_shown, value_html, leaf_html,
  submenu_html, list_html, node_html, nodes_html, build_list,
}
use inroa.Metadata.Reader.{
  content, quoted, read_tags, content_of, Shown, Reads, within, IsPlain, IsWellNested, append-Reads,
  opens-Reads, closes-Reads, plain-Reads, quoted-Reads,
}

-- A link holds no quote, which would end the value of its attribute.
abbrev pub IsUnquoted : Text → Type 0
IsUnquoted value = if starts_with_http value then All (λ c. c ≢ b'"') value else Unit

abbrev mutual
  pub IsPlainNode : Node → Type 0
  IsPlainNode (parent label children) = IsPlain label × ArePlain children
  IsPlainNode (null_children label) = IsPlain label
  IsPlainNode (leaf label none) = Unit
  IsPlainNode (leaf label (some value)) = IsPlain label × IsPlain value × IsUnquoted value

  pub ArePlain : Nodes → Type 0
  ArePlain nil = Unit
  ArePlain (cons n ns) = IsPlainNode n × ArePlain ns

-- A link is in an element of its own.
abbrev pub value_outline : List Text → Text → List Shown
value_outline names value =
    if starts_with_http value then within (codes "a" ∷ names) value else within names value

abbrev pub leaf_outline : List Text → Text → Option Text → List Shown
leaf_outline names label none = []
leaf_outline names label (some value) =
    if is_shown value then within names label ++ value_outline names value else []

-- The labels and the values that are shown, in the elements that are open around the list: a group's
-- label stands in an item, and what is in the group in a list in this item.
abbrev mutual
  pub node_outline : List Text → Node → List Shown
  node_outline names (parent label children) =
      within (codes "span" ∷ codes "li" ∷ names) label
      ++ nodes_outline (codes "ul" ∷ codes "li" ∷ names) children
  node_outline names (null_children label) = within (codes "span" ∷ codes "li" ∷ names) label
  node_outline names (leaf label value) =
      leaf_outline (codes "span" ∷ codes "li" ∷ names) label value

  pub nodes_outline : List Text → Nodes → List Shown
  nodes_outline names nil = []
  nodes_outline names (cons n ns) = node_outline names n ++ nodes_outline names ns

list-Reads :
    {s : Text} {names : List Text} {p : List Shown}
    → Reads s (content, codes "ul" ∷ names) (content, codes "ul" ∷ names) p
    → Reads (list_html s) (content, names) (content, names) p
unfolding read_tags content_of
list-Reads h = opens-Reads (codes "<ul>") refl refl (closes-Reads (codes "</ul>") refl refl h)

link-Reads :
    (v : Text) (names : List Text)
    → IsPlain v
    → All (λ c. c ≢ b'"') v
    → Reads
        (codes "<a class=\"link-interno\" href=\"" ++ (v ++ (codes "\">" ++ (v ++ codes "</a>"))))
        (content, names)
        (content, names)
        (within (codes "a" ∷ names) v)
unfolding read_tags content_of
link-Reads v names h free =
    opens-Reads (codes "<a class=\"link-interno\" href=\"") {b = (quoted b'"' (codes "a"), names)}
      refl refl
      (append-Reads (quoted-Reads v (codes "a") names free) (
        opens-Reads (codes "\">") refl refl
          (closes-Reads (codes "</a>") refl refl (plain-Reads v (codes "a" ∷ names) h))))

value-Reads :
    (v : Text) (names : List Text)
    → IsPlain v
    → IsUnquoted v
    → Reads (value_html v) (content, names) (content, names) (value_outline names v)
value-Reads v names h free = elim (Bool-cases (starts_with_http v)) [
  | inl e ↦ rw e (link-Reads v names h (rw e at free))
  | inr e ↦ rw e (plain-Reads v names h)
]

row-Reads :
    (label html : Text) (names : List Text) (p q : List Shown)
    → Reads label
        (content, codes "span" ∷ codes "li" ∷ names)
        (content, codes "span" ∷ codes "li" ∷ names)
        p
    → Reads html
        (content, codes "span" ∷ codes "li" ∷ names)
        (content, codes "span" ∷ codes "li" ∷ names)
        q
    → Reads
        (codes "<li class=\"row\"><span class=\"name col-md-2 col-xs-12\">"
          ++ (label
              ++ (codes "</span><span class=\"value col-md-10 col-xs-12\">"
                  ++ (html ++ codes "</span></li>"))))
        (content, names)
        (content, names)
        (p ++ q)
unfolding read_tags content_of
row-Reads label html names p q h k =
    opens-Reads (codes "<li class=\"row\"><span class=\"name col-md-2 col-xs-12\">") refl refl (
      append-Reads h (
        opens-Reads (codes "</span><span class=\"value col-md-10 col-xs-12\">") refl refl
          (closes-Reads (codes "</span></li>") refl refl k)))

nothing-Reads : (names : List Text) → Reads [] (content, names) (content, names) []
unfolding read_tags content_of
nothing-Reads names = record { tags = refl; content = refl }

leaf-Reads :
    (label v : Text) (names : List Text)
    → IsPlain label
    → IsPlain v
    → IsUnquoted v
    → Reads
        (leaf_html label (some v))
        (content, names)
        (content, names)
        (leaf_outline (codes "span" ∷ codes "li" ∷ names) label (some v))
leaf-Reads label v names h k free =
    let inner : List Text = codes "span" ∷ codes "li" ∷ names in
    elim (Bool-cases (is_shown v)) [
      | inl e ↦ rw e (
          row-Reads label (value_html v) names (within inner label) (value_outline inner v)
            (plain-Reads label inner h) (value-Reads v inner k free))
      | inr e ↦ rw e (nothing-Reads names)
    ]

submenu-Reads :
    (label list : Text) (names : List Text) (p q : List Shown)
    → Reads label
        (content, codes "span" ∷ codes "li" ∷ names)
        (content, codes "span" ∷ codes "li" ∷ names)
        p
    → Reads list (content, codes "li" ∷ names) (content, codes "li" ∷ names) q
    → Reads (submenu_html label list) (content, names) (content, names) (p ++ q)
unfolding read_tags content_of
submenu-Reads label list names p q h k =
    opens-Reads (codes "<li class=\"well shadow\"><span class=\"title\">") refl refl (
      append-Reads h
        (opens-Reads (codes "</span>") refl refl (closes-Reads (codes "</li>") refl refl k)))

mutual
  unfolding node_html

  node-Reads :
      (n : Node) (names : List Text)
      → IsPlainNode n
      → Reads (node_html n) (content, names) (content, names) (node_outline names n)
  node-Reads (parent label children) names (h, hs) =
      submenu-Reads label (list_html (nodes_html children)) names _ _
        (plain-Reads label (codes "span" ∷ codes "li" ∷ names) h)
        (list-Reads (nodes-Reads children (codes "ul" ∷ codes "li" ∷ names) hs))
  node-Reads (null_children label) names h =
      subst (Reads (submenu_html label (list_html [])) (content, names) (content, names))
        (append-nil (within (codes "span" ∷ codes "li" ∷ names) label))
        (submenu-Reads label (list_html []) names _ [] (plain-Reads label _ h)
          (list-Reads (nothing-Reads _)))
  node-Reads (leaf label none) names h = nothing-Reads names
  node-Reads (leaf label (some v)) names (h, k, free) = leaf-Reads label v names h k free

  nodes-Reads :
      (ns : Nodes) (names : List Text)
      → ArePlain ns
      → Reads (nodes_html ns) (content, names) (content, names) (nodes_outline names ns)
  nodes-Reads nil names h = nothing-Reads names
  nodes-Reads (cons n ns) names (h, hs) =
      append-Reads (node-Reads n names h) (nodes-Reads ns names hs)

-- If no label and no value of a leaf holds `<` or `>`, and no value that is a link a quote: in whatever elements the text that `buildList`
-- returns is put, it closes each element that it opens, in the right order, and no other; and between
-- its tags stand exactly the labels of the groups, each followed by what is in the group, and of the
-- leaves with a value that is shown the label and the value, in order, in the elements of the outline.
pub build_list-Reads :
    (json : Nodes) (names : List Text)
    → ArePlain json
    → Reads
        (build_list json)
        (content, names)
        (content, names)
        (nodes_outline (codes "ul" ∷ names) json)
unfolding build_list
build_list-Reads json names h = list-Reads (nodes-Reads json (codes "ul" ∷ names) h)

pub build_list-IsWellNested : (json : Nodes) → ArePlain json → IsWellNested (build_list json)
build_list-IsWellNested json h names = (build_list-Reads json names h).tags
