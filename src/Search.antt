-- ===== src/Search.antt =====
-- scripts/index.js: the test of the query before the form of the search page is sent. `$.trim` is an
-- argument.
pub mod Query
mod Tests
use Prim.Native.Nat.{ℕ}
use mathlib.Core.Bool.{Bool, true, false, not, ◌&&◌, ◌||◌}
use mathlib.Core.Option.{Option, none, some}
use mathlib.Core.List.{[]}
use inroa.Base.{Text, leb, is_digit, keep, text_eq, Result, ok, throws, type_error}

-- `[0-9A-Za-z]`
abbrev pub is_alnum : ℕ → Bool
is_alnum c = is_digit c || (leb b'A' c && leb c b'Z') || (leb b'a' c && leb c b'z')

-- `replace(/[^0-9A-Za-z]*/g, '')`, then `$.trim`
abbrev pub consulta : (Text → Text) → Text → Text
consulta trim value = trim (keep is_alnum value)

-- Whether the form is sent; a page without the field throws.
unfoldable pub submit : (Text → Text) → Option Text → Result Bool
submit trim none = throws type_error
submit trim (some value) = ok (not (text_eq (consulta trim value) []))
