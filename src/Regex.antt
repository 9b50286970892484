-- ===== src/Regex.antt =====
-- Regular expressions as the scripts use them with `RegExp.test`: their syntax, the texts that they
-- match, and a matcher that runs. `both` stands for a lookahead over the rest of the match.
pub mod Derivative
pub mod Shape
use Prim.Native.Nat.{ℕ, zero, suc}
use mathlib.Core.Path.{◌≡◌}
use mathlib.Core.Logic.{◌⊎◌}
use mathlib.Core.Bool.{Bool, true, false, ◌&&◌, ◌||◌}
use mathlib.Core.List.{[], ◌∷◌, ◌++◌}
use inroa.Base.{Text, ◌==◌, leb, if◌then◌else◌}

pub data Regex : Type 0 where
  void eps : Regex
  set : (ℕ → Bool) → Regex
  seq alt both : Regex → Regex → Regex
  star : Regex → Regex

-- A text cut into pieces of `P`.
pub data Star (P : Text → Type 0) : Text → Type 0 where
  done : Star P []
  more : {u v w : Text} → P u → Star P v → w ≡ u ++ v → Star P w

-- The texts that an expression matches from end to end.
abbrev pub Matches : Regex → Text → Type 0
Matches void s = ⊥
Matches eps s = s ≡ []
Matches (set p) s = (c : ℕ) × (s ≡ c ∷ []) × (p c ≡ true)
Matches (seq a b) s = (u : Text) × (v : Text) × (s ≡ u ++ v) × Matches a u × Matches b v
Matches (alt a b) s = Matches a s ⊎ Matches b s
Matches (both a b) s = Matches a s × Matches b s
Matches (star a) s = Star (Matches a) s

-- `a?`, `a+`, `a{n}`, `a{m,m+n}`, `a{n,}`
abbrev pub opt : Regex → Regex
opt a = alt a eps

abbrev pub plus : Regex → Regex
plus a = seq a (star a)

unfoldable pub repeat : ℕ → Regex → Regex
repeat zero a = eps
repeat (suc n) a = seq a (repeat n a)

unfoldable pub repeat_to : ℕ → ℕ → Regex → Regex
repeat_to zero zero a = eps
repeat_to zero (suc n) a = opt (seq a (repeat_to zero n a))
repeat_to (suc m) n a = seq a (repeat_to m n a)

-- One character, `[…]` of ranges, and a text.
abbrev pub char : ℕ → Regex
char c = set (λ x. x == c)

abbrev pub range : ℕ → ℕ → ℕ → Bool
range lo hi c = leb lo c && leb c hi

unfoldable pub literal : Text → Regex
literal [] = eps
literal (c ∷ s) = seq (char c) (literal s)

-- `.`, with no line terminator, and any text, which an end without an anchor leaves.
abbrev pub any_char : Regex
any_char = set (λ c. if c == 10 || c == 13 || c == 0x2028 || c == 0x2029 then false else true)

abbrev pub anything : Regex
anything = star (set (λ c. true))

-- The matcher: does the rest of the text match, and what is left to match after one character.
pub nullable : Regex → Bool
nullable void = false
nullable eps = true
nullable (set p) = false
nullable (seq a b) = nullable a && nullable b
nullable (alt a b) = nullable a || nullable b
nullable (both a b) = nullable a && nullable b
nullable (star a) = true

pub seq_of : Regex → Regex → Regex
seq_of void b = void
seq_of eps b = b
seq_of a b = seq a b

pub alt_of : Regex → Regex → Regex
alt_of void b = b
alt_of a void = a
alt_of a b = alt a b

pub derivative : ℕ → Regex → Regex
derivative c void = void
derivative c eps = void
derivative c (set p) = if p c then eps else void
derivative c (seq a b) =
    alt_of (seq_of (derivative c a) b) (if nullable a then derivative c b else void)
derivative c (alt a b) = alt_of (derivative c a) (derivative c b)
derivative c (both a b) = both (derivative c a) (derivative c b)
derivative c (star a) = seq_of (derivative c a) (star a)

-- `/^r$/.test(s)`
unfoldable pub test : Regex → Text → Bool
unfolding nullable derivative seq_of alt_of
test r [] = nullable r
test r (c ∷ s) = test (derivative c r) s
