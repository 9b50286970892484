-- ===== src/Chart.antt =====
-- scripts/statistics.js: the charts of the statistics page, with the variables that remember the last
-- line chart, and `recarregarGraficoLinha`, which draws new numbers given as the text of an array.
pub mod Reload
mod Tests
use mathlib.Core.Bool.{Bool, not, ◌||◌}
use mathlib.Core.Option.{Option, none, some}
use mathlib.Core.List.{List, [], ◌∷◌, map}
use inroa.Base.{Text, ◌==◌, keep, split}

-- `_titulo`, `eixoX`, `eixoY` and `_id`; `none` is `undefined`.
pub record Globals : Type 0 where
  pub titulo : Option Text
  pub eixo_x : Option Text
  pub eixo_y : Option Text
  pub id : Option Text

-- What the page does, in order: the element is emptied, or a chart is drawn in it.
pub data Event (Float : Type 0) : Type 0 where
  empty : Option Text → Event Float
  line : Option Text → List (List Float) → Globals → Event Float
  pie : Text → List (Text × Float) → Text → Event Float

-- `arrayString.replace(/[\[\] ]/g, '').split(",")`
unfoldable pub array_texts : Text → List Text
array_texts array_string =
    split b',' (keep (λ c. not ((c == b'[') || (c == b']') || (c == b' '))) array_string)

-- `if (!titulo) titulo = _titulo`
abbrev pub title_or_last : Option Text → Option Text → Option Text
title_or_last none last = last
title_or_last (some []) last = last
title_or_last (some (c ∷ s)) last = some (c ∷ s)

module _ {Float : Type 0} where
  unfoldable pub grafico_pizza :
      Text → List (Text × Float) → Text → Globals → Globals × List (Event Float)
  grafico_pizza id array titulo globals = (globals, pie id array titulo ∷ [])

  unfoldable pub grafico_linha :
      Option Text
      → List (List Float)
      → Option Text
      → Option Text
      → Option Text
      → Globals × List (Event Float)
  grafico_linha id array titulo x y =
      let globals : Globals = record { titulo = titulo; eixo_x = x; eixo_y = y; id = id } in
      (globals, line id array globals ∷ [])

  -- `to_number` is the unary `+` on a text.
  unfoldable pub recarregar_grafico_linha :
      (Text → Float) → Text → Option Text → Globals → Globals × List (Event Float)
  unfolding array_texts grafico_linha
  recarregar_grafico_linha to_number array_string titulo globals =
      let array : List Float = map to_number (array_texts array_string) in
      let (globals', events) =
        grafico_linha globals.id (array ∷ []) (title_or_last titulo globals.titulo) globals.eixo_x
          globals.eixo_y in
      (globals', empty globals.id ∷ events)
