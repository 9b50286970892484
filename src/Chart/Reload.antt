-- ===== src/Chart/Reload.antt =====
-- Reading back the text of an array, as the server's lists print themselves.
use Prim.Native.Nat.{ℕ}
use mathlib.Core.Path.{◌≡◌, refl, ap, ap₂, ◌∙◌}
use mathlib.Core.Logic.{◌≢◌}
use mathlib.Core.Bool.{Bool, not, ◌||◌}
use mathlib.Core.Option.{Option, none, some}
use mathlib.Core.List.{List, [], ◌∷◌, ◌++◌, map, append-nil}
use native.Mathlib.Omega.{arith}
use inroa.Base.{Text, codes, ◌==◌, keep, All, IsFree, split, join, split-join, keep-append}
use inroa.Chart.{Globals, Event, empty, line, array_texts, recarregar_grafico_linha}

-- `[a, b, c]`
abbrev pub array_text : List Text → Text
array_text xs = codes "[" ++ (join (codes ", ") xs ++ codes "]")

-- An item with none of the characters that the text of an array adds.
abbrev pub IsItem : Text → Type 0
IsItem x = All (λ c. (c ≢ b'[') × (c ≢ b']') × (c ≢ b' ') × (c ≢ b',')) x

abbrev stays : ℕ → Bool
stays c = not ((c == b'[') || (c == b']') || (c == b' '))

keep-item : (x : Text) → IsItem x → keep stays x ≡ x
keep-item [] h = refl
keep-item (c ∷ x) (h, hs) = ground (arith, keep-item x hs)

item-IsFree : (x : Text) → IsItem x → IsFree b',' x
item-IsFree [] h = tt
item-IsFree (c ∷ x) (h, hs) = (h.3, item-IsFree x hs)

items-IsFree : (xs : List Text) → All IsItem xs → All (IsFree b',') xs
items-IsFree [] h = tt
items-IsFree (x ∷ xs) (h, hs) = (item-IsFree x h, items-IsFree xs hs)

keep-join :
    (x : Text) (xs : List Text)
    → All IsItem (x ∷ xs)
    → keep stays (join (codes ", ") (x ∷ xs)) ≡ join (codes ",") (x ∷ xs)
unfolding join
keep-join x [] (h, _) = keep-item x h
keep-join x (y ∷ xs) (h, hs) =
    keep-append stays x (codes ", " ++ join (codes ", ") (y ∷ xs))
    ∙ ap₂ ◌++◌ (keep-item x h) (ap (λ (l : Text). b',' ∷ l) (keep-join y xs hs))

-- The text of an array of items gives the items back.
array_texts-array_text :
    (x : Text) (xs : List Text) → All IsItem (x ∷ xs) → array_texts (array_text (x ∷ xs)) ≡ x ∷ xs
unfolding array_texts
array_texts-array_text x xs h =
    ap (split b',')
      (keep-append stays (join (codes ", ") (x ∷ xs)) (codes "]") ∙ append-nil _ ∙ keep-join x xs h)
    ∙ split-join b',' x xs (items-IsFree (x ∷ xs) h)

-- The last chart's element is emptied, and gets one line with these numbers under a title, with the
-- axes kept; these are the variables afterwards.
abbrev pub redrawn :
    {Float : Type 0} → List Float → Option Text → Globals → Globals × List (Event Float)
redrawn numbers titulo globals = (
  record globals { titulo = titulo },
  empty globals.id ∷ line globals.id (numbers ∷ []) (record globals { titulo = titulo }) ∷ [],
)

-- Given the text of an array of at least one item, `recarregarGraficoLinha` empties the last chart's
-- element and draws there one line with the numbers of the items in order, under the new title if one
-- is given that is not empty, else under the last one, and with the axes kept; the variables
-- afterwards are the last ones with this title.
pub recarregar_grafico_linha-array_text :
    {Float : Type 0} (to_number : Text → Float) (x : Text) (xs : List Text) (c : ℕ) (s : Text)
    (globals : Globals)
    → All IsItem (x ∷ xs)
    → (recarregar_grafico_linha to_number (array_text (x ∷ xs)) (some (c ∷ s)) globals
        ≡ redrawn (map to_number (x ∷ xs)) (some (c ∷ s)) globals)
      × (recarregar_grafico_linha to_number (array_text (x ∷ xs)) (some []) globals
          ≡ redrawn (map to_number (x ∷ xs)) globals.titulo globals)
      × (recarregar_grafico_linha to_number (array_text (x ∷ xs)) none globals
          ≡ redrawn (map to_number (x ∷ xs)) globals.titulo globals)
unfolding recarregar_grafico_linha
recarregar_grafico_linha-array_text to_number x xs c s globals h =
    rw (array_texts-array_text x xs h) (refl, refl, refl)
