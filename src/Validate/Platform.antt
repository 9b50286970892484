-- ===== src/Validate/Platform.antt =====
-- scripts/validatejs.js, `isPlatform`: the tests of the browser's name for the system.
use Prim.Native.Nat.{ℕ, ◌+◌}
use mathlib.Core.Bool.{Bool, false, ◌||◌}
use mathlib.Core.Option.{Option, none, some}
use mathlib.Core.List.{[], ◌∷◌}
use inroa.Base.{is_space, Text, codes, ◌==◌, text_eq, if◌then◌else◌}
use inroa.Regex.{Regex, eps, set, alt, anything, test}
use inroa.Validate.Formats.{◌⋅◌, is_alnum}

-- `/\win/i`, `/\mac/i` and `/\unix|\linux|\sun/i`: `\w` and `\s` are classes; `\m`, `\u` and `\l`
-- are the letters themselves.
abbrev pub either_case : ℕ → Regex
either_case c = set (λ x. (x == c) || (x + 32 == c))

unfoldable pub letters : Text → Regex
letters [] = eps
letters (c ∷ s) = either_case c ⋅ letters s

-- An expression with no anchor finds its text anywhere.
abbrev anywhere : Regex → Regex
anywhere r = anything ⋅ r ⋅ anything

abbrev pub is_word : ℕ → Bool
is_word c = is_alnum c || (c == b'_')

unfoldable pub win_reg_exp : Regex
win_reg_exp = anywhere (set is_word ⋅ letters (codes "in"))

unfoldable pub mac_reg_exp : Regex
mac_reg_exp = anywhere (letters (codes "mac"))

unfoldable pub nix_reg_exp : Regex
nix_reg_exp = anywhere (
    alt (letters (codes "unix"))
      (alt (letters (codes "linux")) (set is_space ⋅ letters (codes "un"))))

-- `os`, assigned by up to three tests, the last one winning; `none` is `undefined`.
abbrev pub os_of : Text → Option Text
os_of navigator_platform =
    if test nix_reg_exp navigator_platform
    then some (codes "nix")
    else if test mac_reg_exp navigator_platform
    then some (codes "mac")
    else if test win_reg_exp navigator_platform
    then some (codes "win")
    else none

abbrev is_text : Text → Option Text → Bool
is_text s none = false
is_text s (some t) = text_eq s t

unfoldable pub is_platform : Text → Text → Bool
unfolding nix_reg_exp mac_reg_exp win_reg_exp test letters
is_platform navigator_platform [] = false
is_platform navigator_platform platform = is_text platform (os_of navigator_platform)
