-- ===== src/Shell/Tests.antt =====
-- Runs of the small scripts.
use mathlib.Core.Path.{◌≡◌, refl}
use mathlib.Core.Bool.{false}
use mathlib.Core.List.{[], ◌∷◌}
use inroa.Base.{codes}
use inroa.Shell.{run_resizes, replace_first, hides_confederacao}

run_resizes_narrow : run_resizes 1024 (767 ∷ []) ≡ false
unfolding run_resizes
run_resizes_narrow = refl

replace_first_run :
    replace_first (codes "/buscaAvancada") (codes "/") (codes "http://a/buscaAvancada?q=1")
    ≡ codes "http://a/?q=1"
unfolding replace_first
replace_first_run = refl

-- The text between `${` and `}` is compared as it is written: no page puts an address in its place.
hides_confederacao_run : hides_confederacao (codes "http://feb.br/buscaAvancada") ≡ false
unfolding hides_confederacao replace_first
hides_confederacao_run = refl
