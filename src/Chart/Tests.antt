-- ===== src/Chart/Tests.antt =====
-- `recarregarGraficoLinha` at concrete arrays, the empty one included.
use mathlib.Core.Path.{◌≡◌, refl}
use mathlib.Core.Option.{none, some}
use mathlib.Core.List.{[], ◌∷◌}
use native.Mathlib.Omega.{arith}
use inroa.Base.{Text, codes, length, split}
use inroa.Chart.{Globals, array_texts, recarregar_grafico_linha}
use inroa.Chart.Reload.{array_text, redrawn, recarregar_grafico_linha-array_text}

abbrev globals : Globals
globals = record {
  titulo = some (codes "Visitas");
  eixo_x = some (codes "Mes");
  eixo_y = none;
  id = some (codes "chart1");
}

-- An empty array is read as one empty text.
array_texts_empty : array_texts (codes "[]") ≡ [] ∷ []
unfolding array_texts split
array_texts_empty = refl

abbrev numbers : Text
numbers = array_text (codes "7" ∷ codes "40" ∷ [])

recarregar_grafico_linha-array_text_example :
    (recarregar_grafico_linha length numbers (some (codes "Acessos")) globals
      ≡ redrawn (1 ∷ 2 ∷ []) (some (codes "Acessos")) globals)
    × (recarregar_grafico_linha length numbers (some []) globals
        ≡ redrawn (1 ∷ 2 ∷ []) (some (codes "Visitas")) globals)
    × (recarregar_grafico_linha length numbers none globals
        ≡ redrawn (1 ∷ 2 ∷ []) (some (codes "Visitas")) globals)
recarregar_grafico_linha-array_text_example =
    recarregar_grafico_linha-array_text length (codes "7") (codes "40" ∷ []) b'A' (codes "cessos")
      globals (ground arith)
