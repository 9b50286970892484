-- ===== src/Metadata/Reader.antt =====
-- A reader of tags, for the lists that `buildList` writes.
use Prim.Native.Nat.{ℕ}
use mathlib.Core.Path.{◌≡◌, refl, sym, ap, subst, ◌∙◌}
use mathlib.Core.Logic.{◌≢◌}
use mathlib.Core.Bool.{Bool, false, ◌||◌}
use mathlib.Core.Option.{Option, none, some}
use mathlib.Core.List.{List, [], ◌∷◌, ◌++◌, map}
use native.Mathlib.Omega.{arith}
use inroa.Base.{Text, ◌==◌, if◌then◌else◌, text_eq, All, append-nil, append_assoc}

-- In the content, behind `<`, in the name of an opening or a closing tag, or, in an opening tag: before
-- the name of an attribute, in it, behind it, before its value, in a value without quotes, or in one
-- with the quote that ends it.
pub data Mode : Type 0 where
  content tag_start : Mode
  open_name close_name : Text → Mode
  before_attribute attribute after_attribute before_value unquoted : Text → Mode
  quoted : ℕ → Text → Mode

-- The reader, with the names of the elements that are open.
abbrev pub Reader : Type 0
Reader = Mode × List Text

-- A closing tag has to name the element that was opened last.
abbrev close_last : Text → List Text → Option Reader
close_last name [] = none
close_last name (top ∷ open_names) = if text_eq name top then some (content, open_names) else none

-- White space between the parts of a tag.
abbrev is_html_space : ℕ → Bool
is_html_space c = (c == 9) || (c == 10) || (c == 12) || (c == 13) || (c == 32)

-- Where the reader is in an opening tag after a character that is no quote of a value.
abbrev attribute_char : Mode → Text → ℕ → Mode
attribute_char else_mode name c =
    if is_html_space c
    then before_attribute name
    else if c == b'/'
    then before_attribute name
    else else_mode

abbrev in_tag : Text → List Text → ℕ → Mode → Reader
in_tag name open_names c mode =
    if c == b'>' then (content, name ∷ open_names) else (mode, open_names)

-- The steps of the tokenizer of HTML for the content, and for tags that begin with a letter.
abbrev read_char : Mode → List Text → ℕ → Option Reader
read_char content open_names c =
    some (if c == b'<' then (tag_start, open_names) else (content, open_names))
read_char tag_start open_names c =
    some (if c == b'/' then (close_name [], open_names) else (open_name (c ∷ []), open_names))
read_char (open_name name) open_names c =
    some (in_tag name open_names c (attribute_char (open_name (name ++ c ∷ [])) name c))
read_char (before_attribute name) open_names c =
    some (in_tag name open_names c (attribute_char (attribute name) name c))
read_char (attribute name) open_names c = some (
    in_tag name open_names c (
      if is_html_space c
      then after_attribute name
      else if c == b'='
      then before_value name
      else attribute_char (attribute name) name c))
read_char (after_attribute name) open_names c = some (
    in_tag name open_names c (
      if is_html_space c
      then after_attribute name
      else if c == b'='
      then before_value name
      else attribute_char (attribute name) name c))
read_char (before_value name) open_names c = some (
    in_tag name open_names c (
      if is_html_space c
      then before_value name
      else if (c == b'"') || (c == 39)
      then quoted c name
      else unquoted name))
read_char (unquoted name) open_names c =
    some
      (in_tag name open_names c (if is_html_space c then before_attribute name else unquoted name))
read_char (quoted quote name) open_names c =
    some (if c == quote then before_attribute name else quoted quote name, open_names)
read_char (close_name name) open_names c =
    if c == b'>' then close_last name open_names else some (close_name (name ++ c ∷ []), open_names)

-- `none`: a closing tag that does not match.
unfoldable pub read_tags : Text → Option Reader → Option Reader
read_tags html none = none
read_tags [] (some r) = some r
read_tags (c ∷ html) (some (mode, open_names)) = read_tags html (read_char mode open_names c)

-- Every element of the text is closed in it, in the right order.
abbrev pub IsWellNested : Text → Type 0
IsWellNested html =
    (names : List Text) → read_tags html (some (content, names)) ≡ some (content, names)

-- A character of the content, with the names of the elements around it.
abbrev pub Shown : Type 0
Shown = List Text × ℕ

abbrev show_char : Mode → List Text → ℕ → List Shown
show_char content open_names c = if c == b'<' then [] else (open_names, c) ∷ []
show_char _ open_names c = []

-- The content that is read, in order.
unfoldable pub content_of : Text → Option Reader → List Shown
content_of html none = []
content_of [] (some r) = []
content_of (c ∷ html) (some (mode, open_names)) =
    show_char mode open_names c ++ content_of html (read_char mode open_names c)

-- From one state of the reader, a text leads to another, and shows this.
pub record Reads (html : Text) (from to : Reader) (shown : List Shown) : Type 0 where
  pub tags : read_tags html (some from) ≡ some to
  pub content : content_of html (some from) ≡ shown

-- A text with the same elements around all of it.
abbrev pub within : List Text → Text → List Shown
within names s = map (λ c. (names, c)) s

-- Text with no markup character.
abbrev pub IsPlain : Text → Type 0
IsPlain s = All (λ c. (c ≢ b'<') × (c ≢ b'>')) s

pub read_tags-append :
    (s t : Text) (r : Option Reader) → read_tags (s ++ t) r ≡ read_tags t (read_tags s r)
unfolding read_tags
read_tags-append s t none = refl
read_tags-append [] t (some r) = refl
read_tags-append (c ∷ s) t (some (mode, names)) = read_tags-append s t (read_char mode names c)

content_of-append :
    (s t : Text) (r : Option Reader)
    → content_of (s ++ t) r ≡ content_of s r ++ content_of t (read_tags s r)
unfolding read_tags content_of
content_of-append s t none = refl
content_of-append [] t (some r) = refl
content_of-append (c ∷ s) t (some (mode, names)) =
    ap (λ p. show_char mode names c ++ p) (content_of-append s t (read_char mode names c))
    ∙ sym (
        append_assoc (show_char mode names c) (content_of s (read_char mode names c))
          (content_of t (read_tags s (read_char mode names c))))

pub append-Reads :
    {s t : Text} {a b c : Reader} {p q : List Shown}
    → Reads s a b p
    → Reads t b c q
    → Reads (s ++ t) a c (p ++ q)
append-Reads {s} {t} {a} h k = record {
  tags = read_tags-append s t (some a) ∙ ap (read_tags t) h.tags ∙ k.tags;
  content = content_of-append s t (some a) ∙ rw (h.tags, h.content, k.content) refl;
}

-- Tags in front of a text.
pub opens-Reads :
    (html : Text) {s : Text} {a b c : Reader} {p : List Shown}
    → read_tags html (some a) ≡ some b
    → content_of html (some a) ≡ []
    → Reads s b c p
    → Reads (html ++ s) a c p
opens-Reads html tags nothing h = append-Reads record { tags = tags; content = nothing } h

-- Tags behind a text.
pub closes-Reads :
    (html : Text) {s : Text} {a b c : Reader} {p : List Shown}
    → read_tags html (some b) ≡ some c
    → content_of html (some b) ≡ []
    → Reads s a b p
    → Reads (s ++ html) a c p
closes-Reads html {s} {a} {b} {c} {p} tags nothing h =
    subst (Reads (s ++ html) a c) (append-nil p)
      (append-Reads h record { tags = tags; content = nothing })

pub plain-Reads :
    (s : Text) (names : List Text)
    → IsPlain s
    → Reads s (content, names) (content, names) (within names s)
unfolding read_tags content_of
plain-Reads [] names h = record { tags = refl; content = refl }
plain-Reads (c ∷ s) names ((h, k), hs) =
    let e : (c == b'<') ≡ false = ground arith in
    let rest = plain-Reads s names hs in
    record { tags = rw e rest.tags; content = rw (e, rest.content) refl }

-- The value of an attribute.
pub quoted-Reads :
    (s name : Text) (names : List Text)
    → All (λ c. c ≢ b'"') s
    → Reads s (quoted b'"' name, names) (quoted b'"' name, names) []
unfolding read_tags content_of
quoted-Reads [] name names h = record { tags = refl; content = refl }
quoted-Reads (c ∷ s) name names (h, hs) =
    let e : (c == b'"') ≡ false = ground arith in
    let rest = quoted-Reads s name names hs in
    record { tags = rw e rest.tags; content = rw e rest.content }
