-- ===== src/Fields/Tests.antt =====
-- Texts that are trimmed, keys that are typed, and a form whose password is changed.
use Prim.Native.Nat.{ℕ}
use mathlib.Core.Path.{◌≡◌, refl}
use mathlib.Core.Bool.{true, false}
use mathlib.Core.List.{[], ◌∷◌, ◌++◌}
use inroa.Base.{Text, codes, ok, throws, type_error}
use inroa.Fields.{Key, Form, is_number, trim, exibe_div_senha}
use inroa.Fields.Trim.{AllSpace, IsTrimmed, trim-IsTrimmed}

trim-IsTrimmed_example :
    (a : Text) × (b : Text) × (codes "  FEB 2 " ≡ a ++ (trim (codes "  FEB 2 ") ++ b))
    × AllSpace a
    × AllSpace b
    × IsTrimmed (trim (codes "  FEB 2 "))
trim-IsTrimmed_example = trim-IsTrimmed (codes "  FEB 2 ")

trim_runs : (trim (codes "  FEB 2 ") ≡ codes "FEB 2") × (trim (codes "   ") ≡ [])
unfolding trim
trim_runs = (refl, refl)

abbrev key : ℕ → Key
key c = record { key_code = 0; char_code = c }

-- A digit, a point, the back key and a key without a character.
is_number_runs :
    (is_number false (key b'4') ≡ true)
    × (is_number false (key b'.') ≡ false)
    × (is_number false (key 8) ≡ true)
    × (is_number true (key b'4') ≡ true)
unfolding is_number
is_number_runs = (refl, refl, refl, refl)

abbrev form : Form
form = record {
  root_url = [];
  class_name = λ n. [];
  page = record {
    next_node = 1;
    elements =
        record {
          node = 0;
          id = codes "divRepSenha";
          inner_html = [];
          fields = (codes "confsenhabd", codes "x") ∷ [];
          on_click = false;
        }
        ∷ [];
    table_id = [];
    rows = [];
  };
}

exibe_div_senha_runs :
    ((exibe_div_senha 5 0 form).0 ≡ ok tt)
    × ((exibe_div_senha 5 0 form).1.class_name 5 ≡ codes "hidden")
    × ((exibe_div_senha 5 0 (record form { page = record form.page { elements = [] } })).0
        ≡ throws type_error)
unfolding exibe_div_senha
exibe_div_senha_runs = (refl, refl, refl)
