-- ===== src/Base/Throw.antt =====
-- The outcome of a call that may throw.
use mathlib.Core.Path.{◌≡◌, ap}
use mathlib.Core.Logic.{◌↔◌}
use mathlib.Core.Bool.{Bool, true}

-- The errors that a script throws: a member of `null` or `undefined`, a variable that was never
-- assigned, whatever `eval` throws, and a row that a table does not have. `not_one_class` belongs to
-- the model only.
pub data Failure : Type 0 where
  type_error reference_error eval_error index_size_error not_one_class : Failure

pub data Result {ℓ} (A : Type ℓ) : Type ℓ where
  ok : A → Result A
  throws : Failure → Result A

pub ok_iff : {P : Type 0} {b : Bool} → (b ≡ true) ↔ P → (ok b ≡ ok true) ↔ P
ok_iff (to, from) = (λ h. to (cc), λ p. ap ok (from p))
