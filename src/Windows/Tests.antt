-- ===== src/Windows/Tests.antt =====
-- Windows on a screen of 1024 by 768 pixels.
use Prim.Native.Nat.{ℕ, ◌+◌, ◌*◌}
use mathlib.Core.Path.{◌≡◌, refl, ap}
use mathlib.Core.Bool.{true, false}
use mathlib.Core.Option.{Option, none, some}
use mathlib.Core.List.{[], ◌∷◌}
use native.Mathlib.Omega.{arith}
use inroa.Base.{
  Text, codes, decimal, digits_value, digits_value-decimal, ℤ, pos, ok, throws, type_error,
}
use inroa.Windows.{
  num, text, Screen, open_window, resize_to, move_to, focus, settings, features, new_window,
  abrir_popup,
}
use inroa.Windows.Geometry.{IsCentred, new_window-text}

abbrev to_number : Text → Option ℤ
to_number s = some (pos (digits_value 0 s))

to_number-decimal : (n : ℕ) → to_number (decimal n) ≡ some (pos n)
to_number-decimal n = ap (λ (m : ℕ). some (pos m)) (digits_value-decimal n)

abbrev screen : Screen
screen = record { width = 1024; height = 768; avail_width = 1024; avail_height = 740 }

abrir_popup_runs :
    abrir_popup to_number screen true (codes "a.jsp") (num (pos 400)) (num (pos 301)) ≡ (
      ok false,
      open_window (codes "a.jsp") (codes "FEB") (
            codes
              "width=500,height=401,left=262,top=183.5scrollbars=yes,menubar=no,resizable=yes,toolbar=no,location=no,status=no")
          ∷ resize_to (num (pos 500)) (num (pos 401))
          ∷ move_to (some (pos 524)) (some (pos 367))
          ∷ focus
          ∷ [],
    )
unfolding abrir_popup
abrir_popup_runs = refl

new_window-text_example :
    (left : ℤ) × (top : ℤ) × (new_window to_number screen true
        (codes "a.jsp")
        []
        (text (decimal 750))
        (text (decimal 560))
      ≡ (
        ok tt,
        open_window
              (codes "a.jsp")
              []
              (settings (text (decimal 560)) (text (decimal 750)) (some left) (some top) features)
            ∷ move_to (some left) (some top)
            ∷ focus
            ∷ [],
      ))
    × IsCentred left (pos (750 * 1000 + 100)) 1024
    × IsCentred top (pos (560 * 1000 + 100)) 768
new_window-text_example =
    new_window-text to_number screen (codes "a.jsp") [] 750 560 to_number-decimal (omega arith)
      (omega arith)

-- The width that `total` asks for is found, but the window is placed at `NaN`.
new_window_runs :
    (new_window
        (λ _. none)
        screen
        true
        (codes "a.jsp")
        []
        (text (codes "750"))
        (text (codes "total"))
      ≡ (
        ok tt,
        open_window (codes "a.jsp") [] (
              codes
                "height=675,width=750,left=NaN,top=NaNscrollbars=yes,menubar=no,resizable=yes,toolbar=no,location=no,status=no")
            ∷ move_to none none
            ∷ focus
            ∷ [],
      ))
    × ((new_window (λ _. none) screen false (codes "a.jsp") [] (num (pos 1)) (num (pos 1))).0
        ≡ throws type_error)
unfolding new_window
new_window_runs = (refl, refl)
