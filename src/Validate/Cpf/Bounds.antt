-- ===== src/Validate/Cpf/Bounds.antt =====
-- How large the numbers of `isCPF` become.
use Prim.Native.Nat.{ℕ, zero, suc, ◌+◌, ◌-◌, ◌*◌, ◌≤◌}
use mathlib.Core.Logic.{inl, inr}
use mathlib.Core.Option.{Option, none, some}
use mathlib.Core.List.{[], ◌∷◌}
use native.Mathlib.Omega.{arith}
use inroa.Base.{Text, is_digit, is_space, Bool-cases}
use inroa.Validate.Cpf.{char_at, to_factor, add_product, sums, first_digit, digito_gerado}

-- A number of the script, if it is one, is at most this.
abbrev pub AtMost : ℕ → Option ℕ → Type 0
AtMost n none = Unit
AtMost n (some m) = m ≤ n

times_le : (f w : ℕ) → f ≤ 9 → f * w ≤ 9 * w
times_le f zero h = omega arith
times_le f (suc w) h = omega (arith, times_le f w h)

to_factor-AtMost : (s : Text) → AtMost 9 (to_factor s)
to_factor-AtMost [] = omega arith
to_factor-AtMost (c ∷ s) = elim (Bool-cases (is_digit c)) [
  | inl digit ↦ rw digit (ground arith)
  | inr other ↦ elim (Bool-cases (is_space c)) [
    | inl space ↦ rw (other, space) (omega arith)
    | inr neither ↦ rw (other, neither) tt
  ]
]

add_product-AtMost :
    (soma factor : Option ℕ) (w n : ℕ)
    → AtMost n soma
    → AtMost 9 factor
    → AtMost (n + 9 * w) (add_product soma factor w)
add_product-AtMost (some soma) (some factor) w n h k = omega (arith, times_le factor w k)
add_product-AtMost none factor w n h k = tt
add_product-AtMost (some soma) none w n h k = tt

AtMost-mono : (m n : ℕ) (o : Option ℕ) → m ≤ n → AtMost m o → AtMost n o
AtMost-mono m n none h k = tt
AtMost-mono m n (some x) h k = omega arith

-- The weights of the rounds: `v`, `v - 1`, …
abbrev weights : ℕ → ℕ → ℕ
weights zero v = 0
weights (suc n) v = v + weights n (v - 1)

rounds-AtMost :
    (n : ℕ) (cpf : Text) (i vlr : ℕ) (soma1 soma2 : Option ℕ) (a b : ℕ)
    → AtMost a soma1
    → AtMost b soma2
    → AtMost (a + 9 * weights n (vlr - 1)) (sums n cpf i vlr soma1 soma2).0
      × AtMost (b + 9 * weights n vlr) (sums n cpf i vlr soma1 soma2).1
unfolding sums
rounds-AtMost zero cpf i vlr soma1 soma2 a b h k =
    (AtMost-mono a _ soma1 (omega arith) h, AtMost-mono b _ soma2 (omega arith) k)
rounds-AtMost (suc n) cpf i vlr soma1 soma2 a b h k =
    let factor = to_factor (char_at cpf i) in
    let small = to_factor-AtMost (char_at cpf i) in
    let (p, q) =
      rounds-AtMost n cpf (i + 1) (vlr - 1) (add_product soma1 factor (vlr - 1))
        (add_product soma2 factor vlr) (a + 9 * (vlr - 1)) (b + 9 * vlr)
        (add_product-AtMost soma1 factor (vlr - 1) a h small)
        (add_product-AtMost soma2 factor vlr b k small) in
    (AtMost-mono _ _ _ (omega arith) p, AtMost-mono _ _ _ (omega arith) q)

first_digit-le : (soma1 : ℕ) → first_digit soma1 ≤ 9
first_digit-le soma1 = ground arith

digito_gerado-AtMost : (somas : Option ℕ × Option ℕ) → AtMost 100 (digito_gerado somas)
digito_gerado-AtMost (some soma1, some soma2) = omega (arith, first_digit-le soma1)
digito_gerado-AtMost (none, soma2) = tt
digito_gerado-AtMost (some soma1, none) = tt

-- Whatever the text holds, the two sums, if they are numbers, are at most 486 and 567, and the number
-- that is compared with the digits typed is at most 100.
pub digito_gerado-bounds :
    (cpf : Text)
    → let somas = sums 9 cpf 0 11 (some 0) (some 0) in
      AtMost 486 somas.0 × AtMost 567 somas.1 × AtMost 100 (digito_gerado somas)
digito_gerado-bounds cpf =
    let (p, q) = rounds-AtMost 9 cpf 0 11 (some 0) (some 0) 0 0 (omega arith) (omega arith) in
    (p, q, digito_gerado-AtMost (sums 9 cpf 0 11 (some 0) (some 0)))
