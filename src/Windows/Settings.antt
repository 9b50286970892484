-- ===== src/Windows/Settings.antt =====
-- The settings of a new window as the browser reads them: items between commas.
use Prim.Native.Nat.{ℕ, suc, ◌/◌, ◌%◌}
use mathlib.Core.Path.{◌≡◌, ap, ◌∙◌}
use mathlib.Core.Logic.{◌≢◌, ◌⊎◌, inl, inr}
use mathlib.Core.Bool.{true, false}
use mathlib.Core.Option.{Option, none, some}
use mathlib.Core.List.{List, [], ◌∷◌, ◌++◌, append_assoc}
use native.Mathlib.Omega.{arith}
use inroa.Base.{
  Text, codes, ◌==◌, if◌then◌else◌, Bool-cases, decimal, decimal-All_digit, ℤ, pos, negsuc,
  int_text, All, All-append, is_digit, IsFree, split, join, split-join,
}
use inroa.Windows.{num, half_of, half_text, settings, features}

IsFree-digits : (s : Text) → All (λ c. is_digit c ≡ true) s → IsFree b',' s
IsFree-digits [] h = tt
IsFree-digits (c ∷ s) (h, hs) = (ground arith, IsFree-digits s hs)

IsFree-append : (s t : Text) → IsFree b',' s → IsFree b',' t → IsFree b',' (s ++ t)
IsFree-append s t h k = (All-append (λ x. x ≢ b',') s t).1 (h, k)

IsFree-decimal : (n : ℕ) → IsFree b',' (decimal n)
IsFree-decimal n = IsFree-digits (decimal n) (decimal-All_digit n)

IsFree-int_text : (n : ℤ) → IsFree b',' (int_text n)
unfolding int_text
IsFree-int_text (pos n) = IsFree-decimal n
IsFree-int_text (negsuc n) = (omega arith, IsFree-decimal (suc n))

IsFree-half_of : (m : ℕ) → IsFree b',' (half_of m)
IsFree-half_of m =
    IsFree-append (decimal (m / 2)) _ (IsFree-decimal (m / 2)) (rest (Bool-cases (m % 2 == 1)))
  where
    rest :
        ((m % 2 == 1) ≡ true) ⊎ ((m % 2 == 1) ≡ false)
        → IsFree b',' (if m % 2 == 1 then codes ".5" else [])
    rest (inl odd) = rw odd (omega arith)
    rest (inr even) = rw even tt

IsFree-half_text : (n : Option ℤ) → IsFree b',' (half_text n)
IsFree-half_text none = omega arith
IsFree-half_text (some (pos m)) = IsFree-half_of m
IsFree-half_text (some (negsuc m)) = (omega arith, IsFree-half_of (suc m))

-- The settings that `NewWindow` gives for numbers have no item `scrollbars=yes`: it stands behind the
-- digits of `top`, with no comma between, and the other items are as they were meant.
pub split-settings :
    (h w : ℤ) (left top : Option ℤ)
    → split b',' (settings (num h) (num w) left top features)
      ≡ (codes "height=" ++ int_text h)
        ∷ (codes "width=" ++ int_text w)
        ∷ (codes "left=" ++ half_text left)
        ∷ (codes "top=" ++ (half_text top ++ codes "scrollbars=yes"))
        ∷ codes "menubar=no"
        ∷ codes "resizable=yes"
        ∷ codes "toolbar=no"
        ∷ codes "location=no"
        ∷ codes "status=no"
        ∷ []
unfolding settings join
split-settings h w left top =
    ap (split b',') same
    ∙ split-join b',' (codes "height=" ++ int_text h) rest (
      IsFree-append (codes "height=") _ (omega arith) (IsFree-int_text h),
      (
        IsFree-append (codes "width=") _ (omega arith) (IsFree-int_text w),
        (
          IsFree-append (codes "left=") _ (omega arith) (IsFree-half_text left),
          (
            IsFree-append (codes "top=") _ (omega arith)
                (IsFree-append (half_text top) _ (IsFree-half_text top) (omega arith)),
            omega arith,
          ),
        ),
      ),
    )
  where
    rest : List Text
    rest =
        (codes "width=" ++ int_text w)
        ∷ (codes "left=" ++ half_text left)
        ∷ (codes "top=" ++ (half_text top ++ codes "scrollbars=yes"))
        ∷ codes "menubar=no"
        ∷ codes "resizable=yes"
        ∷ codes "toolbar=no"
        ∷ codes "location=no"
        ∷ codes "status=no"
        ∷ []

    same :
        settings (num h) (num w) left top features
        ≡ join (codes ",") ((codes "height=" ++ int_text h) ∷ rest)
    same = simp append_assoc
