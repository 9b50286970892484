-- ===== src/Metadata/Markup.antt =====
-- What becomes of the lists when a value holds markup.
use mathlib.Core.Path.{◌≡◌, ap, ◌∙◌}
use mathlib.Core.Bool.{true, false}
use mathlib.Core.Option.{Option, none, some}
use mathlib.Core.List.{List, [], ◌∷◌, ◌++◌}
use inroa.Base.{Text, codes, starts_with_http}
use inroa.Metadata.{leaf, nil, cons, is_shown, leaf_html, build_list}
use inroa.Metadata.Reader.{
  content, Reader, read_tags, read_tags-append, IsPlain, plain-Reads, IsWellNested,
}

-- The elements that are open around a value of the outermost list.
abbrev pub around_value : List Text
around_value = codes "span" ∷ codes "li" ∷ codes "ul" ∷ []

bad-append : (s t : Text) (r : Option Reader) → read_tags s r ≡ none → read_tags (s ++ t) r ≡ none
unfolding read_tags
bad-append s t r e = read_tags-append s t r ∙ ap (read_tags t) e

bad-leaf :
    (label value : Text)
    → IsPlain label
    → is_shown value ≡ true
    → starts_with_http value ≡ false
    → read_tags value (some (content, around_value)) ≡ none
    → read_tags (leaf_html label (some value)) (some (content, codes "ul" ∷ [])) ≡ none
unfolding read_tags
bad-leaf label value h shown plain bad =
    rw (shown, plain)
      (read_tags-append label
          (codes "</span><span class=\"value col-md-10 col-xs-12\">"
            ++ (value ++ codes "</span></li>"))
          (some (content, around_value))
        ∙ ap
            (read_tags (
              codes "</span><span class=\"value col-md-10 col-xs-12\">"
              ++ (value ++ codes "</span></li>")))
            (plain-Reads label around_value h).tags
        ∙ bad-append value (codes "</span></li>") (some (content, around_value)) bad)

-- A value is written as it is, so markup in it becomes markup of the page: if a value that is shown
-- and is no link closes elements that it did not open, the list is not well nested.
pub build_list-markup :
    (label value : Text)
    → IsPlain label
    → is_shown value ≡ true
    → starts_with_http value ≡ false
    → read_tags value (some (content, around_value)) ≡ none
    → ¬ IsWellNested (build_list (cons (leaf label (some value)) nil))
unfolding build_list read_tags
build_list-markup label value h shown plain bad nested =
    let broken : read_tags (build_list (cons (leaf label (some value)) nil)) (some (content, []))
        ≡ none =
      bad-append (leaf_html label (some value) ++ []) (codes "</ul>")
        (some (content, codes "ul" ∷ []))
        (bad-append (leaf_html label (some value)) [] (some (content, codes "ul" ∷ []))
          (bad-leaf label value h shown plain bad)) in
    let fine : read_tags (build_list (cons (leaf label (some value)) nil)) (some (content, []))
        ≡ some (content, []) =
      nested [] in
    cc
