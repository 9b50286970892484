-- ===== src/Windows.antt =====
-- scripts/funcoes.js: the functions that open, place and close windows. A window may be blocked:
-- `window.open` then gives `null`, and the next member of it throws.
pub mod Geometry
pub mod Settings
mod Tests
use Prim.Native.Nat.{ℕ, ◌/◌, ◌%◌}
use mathlib.Core.Bool.{Bool, true, false}
use mathlib.Core.Option.{Option, none, some}
use mathlib.Core.List.{List, [], ◌∷◌, ◌++◌}
use inroa.Base.{
  Text, codes, ◌==◌, if◌then◌else◌, text_eq, decimal, ℤ, pos, negsuc, sub_ℕ, ◌-ℤ◌, ◌+ℤ◌, int_text,
  suc, Result, ok, throws, type_error,
}

-- A width or a height, as the pages pass it: a whole number or a text.
pub data Size : Type 0 where
  num : ℤ → Size
  text : Text → Size

pub record Screen : Type 0 where
  pub width : ℕ
  pub height : ℕ
  pub avail_width : ℕ
  pub avail_height : ℕ

-- What is asked of the browser. `left` and `top` are in half pixels; `none` is `NaN`.
pub data Call : Type 0 where
  open_window : Text → Text → Text → Call
  resize_to : Size → Size → Call
  move_to : Option ℤ → Option ℤ → Call
  focus : Call
  reload_opener : Call
  close : Call

-- `size == 'total'`
abbrev pub is_total : Size → Bool
is_total (num n) = false
is_total (text s) = text_eq s (codes "total")

abbrev pub size_text : Size → Text
size_text (num n) = int_text n
size_text (text s) = s

-- `size + 100`: a sum, or the text with the digits behind it.
unfoldable pub plus_hundred : Size → Size
unfolding ◌+ℤ◌
plus_hundred (num n) = num (n +ℤ pos 100)
plus_hundred (text s) = text (s ++ codes "100")

-- Half of a whole number as a text; `none` is `NaN`.
abbrev pub half_of : ℕ → Text
half_of m = decimal (m / 2) ++ (if m % 2 == 1 then codes ".5" else [])

abbrev pub half_text : Option ℤ → Text
half_text none = codes "NaN"
half_text (some (pos m)) = half_of m
half_text (some (negsuc m)) = b'-' ∷ half_of (suc m)

-- `'height='+h+',width='+w+',left='+left+',top='+top+features`
unfoldable pub settings : Size → Size → Option ℤ → Option ℤ → Text → Text
unfolding int_text
settings h w left top features =
    codes "height="
    ++ (size_text h
        ++ (codes ",width="
            ++ (size_text w
                ++ (codes ",left="
                    ++ (half_text left ++ (codes ",top=" ++ (half_text top ++ features)))))))

-- The same for `abrirPopup`, which begins with the width.
unfoldable pub popup_settings : Size → Size → Option ℤ → Option ℤ → Text → Text
unfolding int_text
popup_settings w h left top features =
    codes "width="
    ++ (size_text w
        ++ (codes ",height="
            ++ (size_text h
                ++ (codes ",left="
                    ++ (half_text left ++ (codes ",top=" ++ (half_text top ++ features)))))))

abbrev pub features : Text
features = codes "scrollbars=yes,menubar=no,resizable=yes,toolbar=no,location=no,status=no"

-- The rest of a function that uses the new window.
abbrev pub with_window : {A : Type 0} → Bool → Call → List Call → A → Result A × List Call
with_window opened call calls a =
    if opened then (ok a, call ∷ calls) else (throws type_error, call ∷ [])

-- `MM_openBrWindow` and `NewTab`
abbrev pub mm_open_br_window : Text → Text → Text → List Call
mm_open_br_window the_url win_name features = open_window the_url win_name features ∷ []

abbrev pub new_tab : Text → List Call
new_tab url = open_window url (codes "_blank") [] ∷ []

-- `recarrega` and `fechaRecarrega`; a window that no other window opened has no opener.
abbrev pub recarrega : Bool → Result (Unit {0}) × List Call
recarrega has_opener = if has_opener then (ok tt, reload_opener ∷ []) else (throws type_error, [])

abbrev pub fecha_recarrega : Bool → Result (Unit {0}) × List Call
fecha_recarrega has_opener =
    if has_opener then (ok tt, reload_opener ∷ close ∷ []) else (throws type_error, [])

-- `to_number` is what a text is as an operand of `-`, with `none` for `NaN`; whole numbers are enough
-- for the sizes that the pages pass.
module _ (to_number : Text → Option ℤ) (screen : Screen) (opened : Bool) where
  -- Twice `(length - size) / 2`.
  unfoldable pub margin : ℕ → Size → Option ℤ
  unfolding ◌-ℤ◌
  margin length (num n) = some (pos length -ℤ n)
  margin length (text s) = elim (to_number s) [ none ↦ none | some n ↦ some (pos length -ℤ n) ]

  -- `NewWindowFeatures`
  unfoldable pub new_window_features :
      Text → Text → Size → Size → Text → Result (Unit {0}) × List Call
  unfolding plus_hundred margin settings
  new_window_features mypage myname w h features =
      let left = margin screen.width (plus_hundred w) in
      let top = margin screen.height (plus_hundred h) in
      let h' : Size = if is_total h then num (sub_ℕ screen.avail_height 65) else h in
      let w' : Size = if is_total w then num (sub_ℕ screen.avail_width 9) else w in
      with_window {A = Unit {0}} opened
        (open_window mypage myname (settings h' w' left top features))
        (move_to left top ∷ focus ∷ []) tt

  -- `NewWindow`
  unfoldable pub new_window : Text → Text → Size → Size → Result (Unit {0}) × List Call
  unfolding new_window_features
  new_window mypage myname w h = new_window_features mypage myname w h features

  -- `abrirPopup`, which returns `false`.
  unfoldable pub abrir_popup : Text → Size → Size → Result Bool × List Call
  unfolding plus_hundred margin popup_settings
  abrir_popup url w h =
      let new_w = plus_hundred w in
      let new_h = plus_hundred h in
      let left = margin screen.width new_w in
      let top = margin screen.height new_h in
      let new_w' : Size = if is_total w then num (pos screen.width) else new_w in
      let new_h' : Size = if is_total h then num (pos screen.height) else new_h in
      with_window opened
        (open_window url (codes "FEB") (popup_settings new_w new_h left top features))
        (resize_to new_w' new_h' ∷ move_to left top ∷ focus ∷ []) false
