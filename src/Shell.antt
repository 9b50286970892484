-- ===== src/Shell.antt =====
-- The small scripts that every page loads: scripts/toggleSearch.js, scripts/barraSuperior.js,
-- scripts/zebraScript.js, scripts/rss.js, scripts/autosuggest.js, and
-- scripts/admin/repositories/new.js, which shows the mappings of a standard.
pub mod Widgets
mod Tests
use Prim.Native.Nat.{ℕ, ◌+◌}
use mathlib.Core.Bool.{Bool, true, false, not}
use mathlib.Core.Option.{Option, none, some}
use mathlib.Core.List.{List, [], ◌∷◌, ◌++◌}
use inroa.Base.{Text, codes, ltb, if◌then◌else◌, text_eq, starts_with}

-- `toggle`: whether `.searchBox` has the class `input-group` in a window of this width.
abbrev pub toggle : ℕ → Bool
toggle width = if ltb width 768 then false else true

-- The page when it is loaded in a window of the first width, and after each `resize`.
unfoldable pub run_resizes : ℕ → List ℕ → Bool
run_resizes width [] = toggle width
run_resizes width (w ∷ ws) = run_resizes w ws

-- What follows a text at the start of another.
abbrev pub after : Text → Text → Text
after [] s = s
after (c ∷ p) [] = []
after (c ∷ p) (d ∷ s) = after p s

-- `replace` with a text to look for: the first place where it stands.
unfoldable pub replace_first : Text → Text → Text → Text
replace_first p r [] = []
replace_first p r (c ∷ s) =
    let rest = replace_first p r s in
    if starts_with p (c ∷ s) then r ++ after p (c ∷ s) else c ∷ rest

-- scripts/barraSuperior.js: whether `#confederacao` is hidden at this address.
unfoldable pub hides_confederacao : Text → Bool
unfolding replace_first
hides_confederacao href =
    text_eq (replace_first (codes "/buscaAvancada") (codes "/") href) (codes "${confederacao}")

-- A row of a `zebraTable`.
pub record Stripe : Type 0 where
  pub is_even : Bool
  pub is_under_pointer : Bool

abbrev pub hover : Bool → Stripe → Stripe
hover is_over row = record row { is_under_pointer = is_over }

-- `:even` counts from 0.
unfoldable pub zebra : Bool → List Stripe → List Stripe
zebra is_even [] = []
zebra is_even (row ∷ rows) = record row { is_even = is_even } ∷ zebra (not is_even) rows

-- The colour of the cells `th`.
abbrev pub header_color : Text
header_color = codes "#AEC9E3"

-- The rows when the document is ready.
abbrev pub on_ready : List Stripe → List Stripe
on_ready rows = zebra true rows

-- `geraRss`: the address that the window goes to.
abbrev pub gera_rss : Text → Text
gera_rss consulta = codes "rss.jsp?key=" ++ consulta

-- The search box with suggestions: the lines of the console, and how often `#busca` was clicked.
pub record SearchBox : Type 0 where
  pub console : List Text
  pub clicks : ℕ

abbrev pub on_autocompleted : Text → SearchBox → SearchBox
on_autocompleted suggestion box = record box { console = box.console ++ suggestion ∷ [] }

abbrev pub on_selected : Text → SearchBox → SearchBox
on_selected suggestion box = record box {
  console = box.console ++ suggestion ∷ [];
  clicks = box.clicks + 1;
}

-- The part of a new repository's page that shows the mappings: what `#resultadoMap` holds, and the
-- requests that were sent.
pub record Mappings : Type 0 where
  pub result : Text
  pub requests : List Text

-- A click on `#padraoMetadados`
abbrev pub on_padrao : Text → Text → Mappings → Mappings
on_padrao url value page = record page {
  result = codes "Aguarde...";
  requests = page.requests ++ (url ++ value) ∷ [];
}

-- The answer to a request, or its failure
abbrev pub on_mappings : Option Text → Mappings → Mappings
on_mappings (some msg) page = record page { result = msg }
on_mappings none page = record page { result = codes "Erro nas funções do Ajax" }
