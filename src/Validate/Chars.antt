-- ===== src/Validate/Chars.antt =====
-- scripts/validatejs.js, `hasValidChars`: an expression built from the characters that are allowed.
use Prim.Native.Nat.{ℕ}
use mathlib.Core.Path.{◌≡◌, refl, ap, ◌∙◌}
use mathlib.Core.Logic.{◌↔◌, ◌≢◌, inl, inr}
use mathlib.Core.Bool.{Bool, true, false, not, ◌||◌}
use mathlib.Core.Option.{Option, none, some}
use mathlib.Core.List.{[], ◌∷◌, ◌++◌}
use native.Mathlib.Omega.{arith}
use inroa.Base.{Text, codes, ◌==◌, if◌then◌else◌, any, text_eq, IsFree, iff_trans, Bool-cases}
use inroa.Regex.{set, plus, test}
use inroa.Regex.Derivative.{test_iff}
use inroa.Regex.Shape.{InClass, Matches-plus_iff}
use inroa.Validate.Engine.{Engine, Result, ok, throws, not_one_class, ok_iff}

abbrev pub backslash : ℕ
backslash = 92

-- `s.replace(new RegExp("([\\\\-])", "g"), "\\$1")`
unfoldable pub escape_specials : Text → Text
escape_specials [] = []
escape_specials (c ∷ s) = elim ((c == backslash) || (c == b'-')) [
  | true ↦ backslash ∷ c ∷ escape_specials s
  | false ↦ c ∷ escape_specials s
]

-- A character read into a class, and what follows the class.
abbrev pub add_item : ℕ → Option (Text × Text) → Option (Text × Text)
add_item c none = none
add_item c (some (items, rest)) = some (c ∷ items, rest)

-- The engine reads a class up to its bracket. No `-` comes unescaped, so there are no ranges.
unfoldable pub read_class : Text → Option (Text × Text)
read_class [] = none
read_class (c ∷ []) = elim (c == b']') [ true ↦ some ([], []) | false ↦ none ]
read_class (c ∷ d ∷ s) =
    let closed : Option (Text × Text) = some ([], d ∷ s) in
    let escaped : Option (Text × Text) = add_item d (read_class s) in
    let plain : Option (Text × Text) = add_item c (read_class (d ∷ s)) in
    if c == b']' then closed else if c == backslash then escaped else plain

-- `[^…]`
abbrev pub is_negated : Text → Bool
is_negated [] = false
is_negated (c ∷ s) = c == b'^'

abbrev pub class_body : Text → Text
class_body [] = []
class_body (c ∷ s) = if c == b'^' then s else c ∷ s

-- Membership, compared by the case table under the flag `i`.
abbrev pub in_class : Engine → Bool → Text → ℕ → Bool
in_class engine case_sensitive items c =
    any (λ x. if case_sensitive then x == c else engine.fold_case x == engine.fold_case c) items

abbrev pub test_class : Engine → Bool → Bool → Option (Text × Text) → Text → Result Bool
test_class engine case_sensitive negated none s = throws not_one_class
test_class engine case_sensitive negated (some (items, rest)) s =
    if text_eq rest (codes "+$")
    then ok (
        test
          (plus (
            set (λ c.
              if negated
              then not (in_class engine case_sensitive items c)
              else in_class engine case_sensitive items c)))
          s)
    else throws not_one_class

-- `throws not_one_class` where the characters hold a `]`: the rest is then read as an expression of
-- its own, which is not modelled.
unfoldable pub has_valid_chars : Engine → Text → Text → Bool → Result Bool
unfolding escape_specials read_class
has_valid_chars engine s characters case_sensitive =
    let source : Text = escape_specials characters ++ codes "]+$" in
    test_class engine case_sensitive (is_negated source) (read_class (class_body source)) s

read_class-plain :
    (c : ℕ) (t u : Text)
    → c ≢ b']'
    → c ≢ backslash
    → read_class (c ∷ (t ++ b']' ∷ u)) ≡ add_item c (read_class (t ++ b']' ∷ u))
unfolding read_class
read_class-plain c [] u h k = ground arith
read_class-plain c (d ∷ t) u h k = ground arith

read_class-escaped : (c : ℕ) (t : Text) → read_class (backslash ∷ c ∷ t) ≡ add_item c (read_class t)
unfolding read_class
read_class-escaped c t = refl

-- Reading the escaped characters gives them back.
read_class-escape_specials :
    (characters : Text)
    → IsFree b']' characters
    → read_class (escape_specials characters ++ codes "]+$") ≡ some (characters, codes "+$")
unfolding escape_specials
read_class-escape_specials [] h = unfold read_class in refl
read_class-escape_specials (c ∷ s) (h, hs) = elim (Bool-cases ((c == backslash) || (c == b'-'))) [
  | inl e ↦
      rw (e, escape_specials)
        (read_class-escaped c _ ∙ ap (add_item c) (read_class-escape_specials s hs))
  | inr e ↦
      rw (e, escape_specials)
        (read_class-plain c (escape_specials s) _ h (ground arith)
          ∙ ap (add_item c) (read_class-escape_specials s hs))
]

-- Characters that do not begin a negated class stay so when escaped.
class_body-escape_specials :
    (characters t : Text)
    → is_negated characters ≡ false
    → (is_negated (escape_specials characters ++ b']' ∷ t) ≡ false)
      × (class_body (escape_specials characters ++ b']' ∷ t)
          ≡ escape_specials characters ++ b']' ∷ t)
unfolding escape_specials
class_body-escape_specials [] t h = ground arith
class_body-escape_specials (c ∷ s) t h = ground arith

-- With characters that hold no `]` and do not begin with `^`, `hasValidChars` accepts exactly the
-- texts that are not empty and consist of these characters (up to case, unless it is sensitive).
pub has_valid_chars_iff :
    (engine : Engine) (s characters : Text) (case_sensitive : Bool)
    → IsFree b']' characters
    → is_negated characters ≡ false
    → (has_valid_chars engine s characters case_sensitive ≡ ok true)
      ↔ ((s ≢ []) × InClass (in_class engine case_sensitive characters) s)
unfolding has_valid_chars
has_valid_chars_iff engine s characters case_sensitive free plain =
    let (n, b) = class_body-escape_specials characters (codes "+$") plain in
    rw (n, b, read_class-escape_specials characters free)
      (ok_iff (iff_trans (test_iff _ s) (Matches-plus_iff _ s)))
