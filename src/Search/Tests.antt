-- ===== src/Search/Tests.antt =====
-- Queries that are sent and queries that are not.
use mathlib.Core.Path.{◌≡◌, refl}
use mathlib.Core.Logic.{◌↔◌}
use mathlib.Core.Bool.{true, false}
use mathlib.Core.Option.{some}
use mathlib.Core.List.{[], ◌∷◌}
use inroa.Base.{Text, codes, All, Holds, ok, trim_start, is_space}
use inroa.Search.{submit}
use inroa.Search.Query.{IsLetterOrDigit, submit_iff}

trim_start-no_space : (s : Text) → All (λ c. is_space c ≡ false) s → trim_start s ≡ s
unfolding trim_start
trim_start-no_space [] h = refl
trim_start-no_space (c ∷ s) (h, hs) = rw (trim_start, h) refl

submit_iff_example :
    (submit trim_start (some (codes "física")) ≡ ok true) ↔ Holds IsLetterOrDigit (codes "física")
submit_iff_example = submit_iff trim_start (codes "física") trim_start-no_space

submit_runs :
    (submit trim_start (some (codes " (é) ")) ≡ ok false)
    × (submit trim_start (some (codes "2")) ≡ ok true)
unfolding submit trim_start
submit_runs = (refl, refl)
