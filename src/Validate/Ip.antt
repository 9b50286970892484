-- ===== src/Validate/Ip.antt =====
-- scripts/validatejs.js, `isSimpleIP`: the texts that it accepts are the dotted quads.
use Prim.Native.Nat.{◌≤◌}
use mathlib.Core.Path.{◌≡◌, refl}
use mathlib.Core.Logic.{◌↔◌, ◌⊎◌, inl, inr}
use mathlib.Core.Bool.{true}
use mathlib.Core.List.{[], ◌∷◌, ◌++◌, append-nil, append_assoc}
use native.Mathlib.Omega.{arith}
use inroa.Base.{Text, is_digit, length, leb, ◌==◌, Bool-cases}
use inroa.Regex.{Matches, repeat, seq, char}
use inroa.Regex.Derivative.{test_iff}
use inroa.Regex.Shape.{InClass, Matches-repeat_to_iff, Matches-char_iff}
use inroa.Validate.Formats.{octet, ip_reg_exp, is_simple_ip}
use inroa.Validate.Numeral.{IsOctet, pair_intro}

-- `[1]?` before one or two digits.
IsOctet-of_short :
    (p v : Text)
    → (p ≡ []) ⊎ (p ≡ b'1' ∷ [])
    → 1 ≤ length v
    → length v ≤ 2
    → InClass is_digit v
    → IsOctet (p ++ v)
IsOctet-of_short p [] e l m h = absurd (omega arith)
IsOctet-of_short p (c ∷ []) (inl e) l m h = rw e (ground arith)
IsOctet-of_short p (c ∷ []) (inr e) l m h = rw e (ground arith)
IsOctet-of_short p (c ∷ d ∷ []) (inl e) l m h = rw e (ground arith)
IsOctet-of_short p (c ∷ d ∷ []) (inr e) l m h = rw e (ground arith)
IsOctet-of_short p (c ∷ d ∷ x ∷ v) e l m h = absurd (omega arith)

octet_to : (s : Text) → Matches octet s → IsOctet s
unfolding octet
octet_to s (inl (u, v, e, inl (c, eu, h), k)) =
    let (l, m, hs) = (Matches-repeat_to_iff 1 1 _ v).0 k in
    let one : c ≡ b'1' = ground arith in
    rw (e, eu, one) (IsOctet-of_short (b'1' ∷ []) v (inr refl) l m hs)
octet_to s (inl (u, v, e, inr eu, k)) =
    let (l, m, hs) = (Matches-repeat_to_iff 1 1 _ v).0 k in
    rw (e, eu) (IsOctet-of_short [] v (inl refl) l m hs)
octet_to s (inr (u, v, e, (c, eu, h), inl (x, y, ev, (d, ex, k), (f, ey, n)))) =
    rw (e, eu, ev, ex, ey) (ground arith)
octet_to s (inr (u, v, e, (c, eu, h), inr (x, y, ev, (d, ex, k), (f, ey, n)))) =
    rw (e, eu, ev, ex, ey) (ground arith)

octet_from : (s : Text) → IsOctet s → Matches octet s
unfolding octet
octet_from [] n = absurd (ground arith)
octet_from (c ∷ []) n = inl (
  [],
  c ∷ [],
  refl,
  inr refl,
  (Matches-repeat_to_iff 1 1 _ (c ∷ [])).1 (omega arith, omega arith, n.digits),
)
octet_from (c ∷ d ∷ []) n = inl (
  [],
  c ∷ d ∷ [],
  refl,
  inr refl,
  (Matches-repeat_to_iff 1 1 _ (c ∷ d ∷ [])).1 (omega arith, omega arith, n.digits),
)
octet_from (b ∷ c ∷ d ∷ []) n = elim (Bool-cases (b == b'1')) [
  | inl h ↦ inl (
    b ∷ [],
    c ∷ d ∷ [],
    refl,
    inl (b, refl, h),
    (Matches-repeat_to_iff 1 1 _ (c ∷ d ∷ [])).1 (omega arith, omega arith, n.digits.1),
  )
  | inr h ↦ inr (
    b ∷ [],
    c ∷ d ∷ [],
    refl,
    (b, refl, ground arith),
    elim (Bool-cases (leb c b'4')) [
      | inl k ↦ inl (pair_intro _ _ (ground arith) (ground arith))
      | inr k ↦ inr (pair_intro _ _ (ground arith) (ground arith))
    ],
  )
]
octet_from (a ∷ b ∷ c ∷ d ∷ s) n = absurd (ground arith)

pub octet_iff : (s : Text) → Matches octet s ↔ IsOctet s
octet_iff s = (octet_to s, octet_from s)

-- Four octets with dots between them.
pub record IsDottedQuad (s : Text) : Type 0 where
  pub first : Text
  pub second : Text
  pub third : Text
  pub fourth : Text
  pub text : s ≡ first ++ b'.' ∷ (second ++ b'.' ∷ (third ++ b'.' ∷ fourth))
  pub octets : IsOctet first × IsOctet second × IsOctet third × IsOctet fourth

dotted_to :
    (s : Text) → Matches (seq octet (char b'.')) s → (o : Text) × (s ≡ o ++ b'.' ∷ []) × IsOctet o
dotted_to s (u, v, e, m, k) = (u, rw (e, (Matches-char_iff b'.' v).0 k), octet_to u m)

dotted_from : (o : Text) → IsOctet o → Matches (seq octet (char b'.')) (o ++ b'.' ∷ [])
dotted_from o h = (o, b'.' ∷ [], refl, octet_from o h, (Matches-char_iff b'.' _).1 refl)

quad_to : (s : Text) → Matches ip_reg_exp s → IsDottedQuad s
unfolding ip_reg_exp repeat
quad_to s (u, v, e, (u1, w1, e1, m1, (u2, w2, e2, m2, (u3, w3, e3, m3, e4))), m4) =
    let (a, ea, ha) = dotted_to u1 m1 in
    let (b, eb, hb) = dotted_to u2 m2 in
    let (c, ec, hc) = dotted_to u3 m3 in
    record {
      first = a;
      second = b;
      third = c;
      fourth = v;
      text = rw (e, e1, e2, e3, e4, ea, eb, ec) (simp (append_assoc, append-nil));
      octets = (ha, hb, hc, octet_to v m4);
    }

quad_from : (s : Text) → IsDottedQuad s → Matches ip_reg_exp s
unfolding ip_reg_exp repeat
quad_from s q =
    let (ha, hb, hc, hd) = q.octets in
    (
      q.first ++ b'.' ∷ q.second ++ b'.' ∷ q.third ++ b'.' ∷ [],
      q.fourth,
      rw q.text (simp append_assoc),
      (
        q.first ++ b'.' ∷ [],
        q.second ++ b'.' ∷ q.third ++ b'.' ∷ [],
        simp append_assoc,
        dotted_from q.first ha,
        (
          q.second ++ b'.' ∷ [],
          q.third ++ b'.' ∷ [],
          simp append_assoc,
          dotted_from q.second hb,
          (q.third ++ b'.' ∷ [], [], simp append-nil, dotted_from q.third hc, refl),
        ),
      ),
      octet_from q.fourth hd,
    )

-- `isSimpleIP` accepts exactly the dotted quads: four octets between dots, each of one or two
-- digits, or of three with a value from 100 to 255.
pub is_simple_ip_iff : (ip : Text) → (is_simple_ip ip ≡ true) ↔ IsDottedQuad ip
unfolding is_simple_ip
is_simple_ip_iff ip =
    let (sound, complete) = test_iff ip_reg_exp ip in
    (λ h. quad_to ip (sound h), λ q. complete (quad_from ip q))
