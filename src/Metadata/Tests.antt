-- ===== src/Metadata/Tests.antt =====
-- A run of `buildList`, and the theorems about it at concrete metadata.
use mathlib.Core.Path.{◌≡◌, refl}
use mathlib.Core.Option.{none, some}
use native.Mathlib.Omega.{arith}
use inroa.Base.{codes, starts_with_http}
use inroa.Metadata.{Nodes, parent, null_children, leaf, nil, cons, build_list}
use mathlib.Core.List.{[], ◌∷◌, ◌++◌}
use inroa.Metadata.Reader.{content, Reads, read_tags, within}
use inroa.Metadata.Outline.{build_list-Reads}

-- A group with a link and a value that is not shown, and a group whose children are `null`.
abbrev sample : Nodes
sample =
    cons
      (parent (codes "g") (
        cons (leaf (codes "l") (some (codes "http://a/b")))
          (cons (leaf (codes "n") (some (codes "NULL"))) nil)))
      (cons (null_children (codes "e")) nil)

build_list_run :
    build_list sample
    ≡ codes
        "<ul><li class=\"well shadow\"><span class=\"title\">g</span><ul><li class=\"row\"><span class=\"name col-md-2 col-xs-12\">l</span><span class=\"value col-md-10 col-xs-12\"><a class=\"link-interno\" href=\"http://a/b\">http://a/b</a></span></li></ul></li><li class=\"well shadow\"><span class=\"title\">e</span><ul></ul></li></ul>"
unfolding build_list starts_with_http
build_list_run = refl

build_list-Reads_example :
    Reads
      (build_list sample)
      (content, [])
      (content, [])
      (within (codes "span" ∷ codes "li" ∷ codes "ul" ∷ []) (codes "g")
        ++ (within
              (codes "span" ∷ codes "li" ∷ codes "ul" ∷ codes "li" ∷ codes "ul" ∷ [])
              (codes "l")
            ++ (within
                  (codes "a"
                    ∷ codes "span"
                    ∷ codes "li"
                    ∷ codes "ul"
                    ∷ codes "li"
                    ∷ codes "ul"
                    ∷ [])
                  (codes "http://a/b")
                ++ within (codes "span" ∷ codes "li" ∷ codes "ul" ∷ []) (codes "e"))))
unfolding starts_with_http
build_list-Reads_example = build_list-Reads sample [] (ground arith)

-- A quote in a link ends the value of its attribute: an opening tag swallows the closing one of the
-- link, and the next closing tag does not match.
quote_run :
    read_tags
      (build_list (cons (leaf (codes "l") (some (codes "http://a\" x="))) nil))
      (some (content, []))
    ≡ none
unfolding build_list starts_with_http read_tags
quote_run = refl
