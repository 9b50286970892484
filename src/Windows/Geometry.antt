-- ===== src/Windows/Geometry.antt =====
-- Where a window is placed.
use Prim.Native.Nat.{ℕ, ◌+◌, ◌*◌, ◌<◌}
use mathlib.Core.Path.{◌≡◌, refl, sym, ap, ◌∙◌}
use mathlib.Core.Bool.{true, false}
use mathlib.Core.Option.{Option, some}
use mathlib.Core.List.{[], ◌∷◌, ◌++◌, append_assoc}
use native.Mathlib.Omega.{arith}
use inroa.Base.{
  Text, codes, text_eq, decimal, decimal_digit, decimal-All_digit, ℤ, pos, ◌-ℤ◌, ◌+ℤ◌, -ℤ_parts,
  +ℤ_parts, eq_of_parts, ok, All, is_digit,
}
use inroa.Windows.{text, Screen, open_window, move_to, focus, settings, features, new_window}

-- A window of this size, whose edge is `left / 2` away from the screen's, has as much room on the
-- other side.
abbrev pub IsCentred : ℤ → ℤ → ℕ → Type 0
IsCentred left size length = left +ℤ size ≡ pos length

centred : (size : ℤ) (length : ℕ) → IsCentred (pos length -ℤ size) size length
centred size length =
    eq_of_parts _ _ (omega (arith, -ℤ_parts (pos length) size, +ℤ_parts (pos length -ℤ size) size))

-- The digits 100 behind those of a positive number.
decimal-hundred : (n : ℕ) → 0 < n → decimal n ++ codes "100" ≡ decimal (n * 1000 + 100)
decimal-hundred n h =
    let one = decimal_digit n 1 h (omega arith) in
    let two = decimal_digit (n * 10 + 1) 0 (omega arith) (omega arith) in
    let three = decimal_digit ((n * 10 + 1) * 10 + 0) 0 (omega arith) (omega arith) in
    let value : ((n * 10 + 1) * 10 + 0) * 10 + 0 ≡ n * 1000 + 100 = omega arith in
    sym (
      ap decimal (sym value)
      ∙ three
      ∙ ap (λ (s : Text). s ++ b'0' ∷ []) (two ∙ ap (λ (s : Text). s ++ b'0' ∷ []) one)
      ∙ simp append_assoc)

not_total : (s : Text) → All (λ c. is_digit c ≡ true) s → text_eq s (codes "total") ≡ false
not_total [] h = refl
not_total (c ∷ s) (h, hs) = ground arith

module _ (to_number : Text → Option ℤ) (screen : Screen) where
  -- If the sizes are the texts of positive numbers, as the pages pass them, which are read as
  -- these numbers, and the window is not blocked: NewWindow reads 100 behind the digits, and
  -- places the window as if it were 1000 times as large and 100 pixels larger than that.
  pub new_window-text :
      (mypage myname : Text) (w h : ℕ)
      → ((n : ℕ) → to_number (decimal n) ≡ some (pos n))
      → 0 < w
      → 0 < h
      → (left : ℤ) × (top : ℤ) × (new_window to_number screen true mypage myname
            (text (decimal w))
            (text (decimal h))
          ≡ (
            ok tt,
            open_window mypage myname
                  (settings (text (decimal h)) (text (decimal w)) (some left) (some top) features)
                ∷ move_to (some left) (some top)
                ∷ focus
                ∷ [],
          ))
        × IsCentred left (pos (w * 1000 + 100)) screen.width
        × IsCentred top (pos (h * 1000 + 100)) screen.height
  unfolding new_window
  new_window-text mypage myname w h reads positive positive' = (
    pos screen.width -ℤ pos (w * 1000 + 100),
    pos screen.height -ℤ pos (h * 1000 + 100),
    rw
        (
          decimal-hundred w positive,
          decimal-hundred h positive',
          reads (w * 1000 + 100),
          reads (h * 1000 + 100),
          not_total (decimal w) (decimal-All_digit w),
          not_total (decimal h) (decimal-All_digit h),
        )
        refl,
    centred (pos (w * 1000 + 100)) screen.width,
    centred (pos (h * 1000 + 100)) screen.height,
  )
