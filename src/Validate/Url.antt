-- ===== src/Validate/Url.antt =====
-- scripts/validatejs.js, `isURL`: the addresses that it accepts.
pub mod Parts
pub mod Laws
use Prim.Native.Nat.{ℕ, ◌+◌, ◌≤◌}
use mathlib.Core.Path.{◌≡◌, refl, sym, ap, ◌∙◌}
use mathlib.Core.Logic.{◌↔◌, ◌≢◌, ◌⊎◌, inl, inr}
use mathlib.Core.Bool.{Bool, true, false, not, ◌||◌}
use mathlib.Core.List.{List, [], ◌∷◌, ◌++◌, append_assoc, append-nil}
use native.Mathlib.Omega.{arith}
use inroa.Base.{Text, codes, All, length, join, is_digit, is_space, ◌==◌}
use inroa.Regex.{
  Regex, Star, done, more, Matches, seq, alt, set, star, plus, opt, char, literal, repeat_to, test,
}
use inroa.Regex.Derivative.{test_iff}
use inroa.Regex.Shape.{
  InClass, Matches-plus_iff, Matches-star_iff, Matches-char_iff, Matches-literal_iff,
  Matches-repeat_to_iff,
}
use inroa.Validate.Email.{IsWord}
use inroa.Validate.Formats.{
  ◌⋅◌, digit, is_lower, is_upper, is_alnum, to_lower_case, scheme, port_and_path, is_url,
}

-- `[0-9a-zA-Z\-]` and `[a-zA-Z]`
abbrev pub is_host_char : ℕ → Bool
is_host_char c = is_alnum c || (c == b'-')

abbrev pub is_letter : ℕ → Bool
is_letter c = is_lower c || is_upper c

abbrev pub IsScheme : Text → Type 0
IsScheme s = (s ≡ codes "http") ⊎ (s ≡ codes "https") ⊎ (s ≡ codes "ftp") ⊎ (s ≡ codes "ftps")

-- Nothing, or a colon and digits; nothing, or a slash and no white space.
abbrev pub IsPort : Text → Type 0
IsPort s = ((d : Text) × (s ≡ b':' ∷ d) × IsWord is_digit d) ⊎ (s ≡ [])

abbrev pub IsPath : Text → Type 0
IsPath s = ((d : Text) × (s ≡ b'/' ∷ d) × InClass (λ c. not (is_space c)) d) ⊎ (s ≡ [])

pub record IsUrl (s : Text) : Type 0 where
  pub protocol : Text
  pub label : Text
  pub labels : List Text
  pub last : Text
  pub port : Text
  pub path : Text
  pub text :
      s
      ≡ protocol
        ++ (codes "://" ++ (join (codes ".") (label ∷ labels) ++ b'.' ∷ (last ++ (port ++ path))))
  pub is_scheme : IsScheme protocol
  pub words : All (IsWord is_host_char) (label ∷ labels)
  pub at_least : 2 ≤ length last
  pub at_most : length last ≤ 6
  pub letters : InClass is_letter last
  pub is_port : IsPort port
  pub is_path : IsPath path
