-- ===== src/Validate/Url/Parts.antt =====
-- What the parts of the expression of `isURL` match.
use Prim.Native.Nat.{ℕ}
use mathlib.Core.Path.{◌≡◌, refl, sym, ap, ◌∙◌}
use mathlib.Core.Logic.{◌↔◌, ◌⊎◌, inl, inr}
use mathlib.Core.Bool.{not}
use mathlib.Core.List.{List, [], ◌∷◌, ◌++◌, append_assoc}
use inroa.Base.{Text, codes, All, join, is_digit, is_space}
use inroa.Regex.{Regex, Star, done, more, Matches, seq, set, star, plus, opt, char, literal, test}
use inroa.Regex.Derivative.{test_iff}
use inroa.Regex.Shape.{
  InClass, Matches-plus_iff, Matches-star_iff, Matches-char_iff, Matches-literal_iff,
}
use inroa.Validate.Email.{IsWord}
use inroa.Validate.Formats.{◌⋅◌, digit, scheme}
use inroa.Validate.Url.{is_host_char, IsScheme, IsPort, IsPath}

opt_iff :
    (c : ℕ) (r : Regex) (P : Text → Type 0) (s : Text)
    → ((d : Text) → Matches r d ↔ P d)
    → Matches (opt (seq (char c) r)) s ↔ (((d : Text) × (s ≡ c ∷ d) × P d) ⊎ (s ≡ []))
opt_iff c r P s iff = (to, from)
  where
    to : Matches (opt (seq (char c) r)) s → ((d : Text) × (s ≡ c ∷ d) × P d) ⊎ (s ≡ [])
    to (inl (u, v, e, h, k)) = inl (v, e ∙ rw ((Matches-char_iff c u).0 h) refl, (iff v).0 k)
    to (inr e) = inr e

    from : ((d : Text) × (s ≡ c ∷ d) × P d) ⊎ (s ≡ []) → Matches (opt (seq (char c) r)) s
    from (inl (d, e, p)) = inl (c ∷ [], d, e, (Matches-char_iff c _).1 refl, (iff d).1 p)
    from (inr e) = inr e

pub IsPort-iff : (s : Text) → Matches (opt (char b':' ⋅ plus digit)) s ↔ IsPort s
IsPort-iff s = opt_iff b':' (plus digit) (IsWord is_digit) s (Matches-plus_iff is_digit)

pub IsPath-iff :
    (s : Text) → Matches (opt (char b'/' ⋅ star (set (λ c. not (is_space c))))) s ↔ IsPath s
IsPath-iff s =
    opt_iff b'/' (star (set (λ c. not (is_space c)))) (InClass (λ c. not (is_space c))) s
      (Matches-star_iff (λ c. not (is_space c)))

pub scheme_to : (s : Text) → Matches scheme s → (p : Text) × (s ≡ p ++ codes "://") × IsScheme p
unfolding scheme
scheme_to s (u, v, e, h, (u1, v1, e1, h1, (u2, v2, e2, h2, h3))) =
    let tp = (Matches-literal_iff (codes "tp") u1).0 h1 in
    let colon = (Matches-literal_iff (codes "://") v2).0 h3 in
    elim h [
      | inl ht ↦
          let head = (Matches-literal_iff (codes "ht") u).0 ht in
          elim h2 [
            | inl secure ↦
                let tail = (Matches-char_iff b's' u2).0 secure in
                (codes "https", e ∙ rw (e1, e2, head, tp, tail, colon) refl, inr (inl refl))
            | inr plain ↦ (codes "http", e ∙ rw (e1, e2, head, tp, plain, colon) refl, inl refl)
          ]
      | inr f ↦
          let head = (Matches-literal_iff (codes "f") u).0 f in
          elim h2 [
            | inl secure ↦
                let tail = (Matches-char_iff b's' u2).0 secure in
                (codes "ftps", e ∙ rw (e1, e2, head, tp, tail, colon) refl, inr (inr (inr refl)))
            | inr plain ↦
                (codes "ftp", e ∙ rw (e1, e2, head, tp, plain, colon) refl, inr (inr (inl refl)))
          ]
    ]

pub scheme_from : (p : Text) → IsScheme p → Matches scheme (p ++ codes "://")
unfolding scheme test literal
scheme_from p (inl e) = rw e ((test_iff scheme (codes "http://")).0 refl)
scheme_from p (inr (inl e)) = rw e ((test_iff scheme (codes "https://")).0 refl)
scheme_from p (inr (inr (inl e))) = rw e ((test_iff scheme (codes "ftp://")).0 refl)
scheme_from p (inr (inr (inr e))) = rw e ((test_iff scheme (codes "ftps://")).0 refl)

-- Words, each before a point.
abbrev pub points : List Text → Text
points [] = []
points (w ∷ ws) = w ++ b'.' ∷ points ws

points-join : (w : Text) (ws : List Text) → points (w ∷ ws) ≡ join (codes ".") (w ∷ ws) ++ b'.' ∷ []
unfolding join
points-join w [] = refl
points-join w (x ∷ ws) =
    ap (λ (t : Text). w ++ b'.' ∷ t) (points-join x ws)
    ∙ sym (append_assoc w (b'.' ∷ join (codes ".") (x ∷ ws)) (b'.' ∷ []))

-- `([…]+\.)`
abbrev pub label_reg : Regex
label_reg = seq (plus (set is_host_char)) (char b'.')

label_to :
    (u : Text) → Matches label_reg u → (w : Text) × (u ≡ w ++ b'.' ∷ []) × IsWord is_host_char w
label_to u (w, v, e, word, dot) =
    (w, e ∙ rw ((Matches-char_iff b'.' v).0 dot) refl, (Matches-plus_iff is_host_char w).0 word)

label_from : (w : Text) → IsWord is_host_char w → Matches label_reg (w ++ b'.' ∷ [])
label_from w h =
    (w, b'.' ∷ [], refl, (Matches-plus_iff is_host_char w).1 h, (Matches-char_iff b'.' _).1 refl)

labels_to :
    {s : Text}
    → Star (Matches label_reg) s
    → (ws : List Text) × (s ≡ points ws) × All (IsWord is_host_char) ws
labels_to done = ([], refl, tt)
labels_to (more {u} {v} h k e) =
    let (w, f, word) = label_to u h in
    let (ws, g, words) = labels_to k in
    (w ∷ ws, e ∙ rw (f, g) (append_assoc w (b'.' ∷ []) (points ws)), (word, words))

labels_from : (ws : List Text) → All (IsWord is_host_char) ws → Star (Matches label_reg) (points ws)
labels_from [] h = done
labels_from (w ∷ ws) (h, hs) =
    more (label_from w h) (labels_from ws hs) (sym (append_assoc w (b'.' ∷ []) (points ws)))

pub plus_to :
    (s : Text)
    → Matches (plus label_reg) s
    → (w : Text) × (ws : List Text) × (s ≡ points (w ∷ ws)) × All (IsWord is_host_char) (w ∷ ws)
plus_to s (u, v, e, h, k) =
    let (w, f, word) = label_to u h in
    let (ws, g, words) = labels_to k in
    (w, ws, e ∙ rw (f, g) (append_assoc w (b'.' ∷ []) (points ws)), (word, words))

pub plus_from :
    (w : Text) (ws : List Text)
    → All (IsWord is_host_char) (w ∷ ws)
    → Matches (plus label_reg) (points (w ∷ ws))
plus_from w ws (h, hs) = (
  w ++ b'.' ∷ [],
  points ws,
  sym (append_assoc w (b'.' ∷ []) (points ws)),
  label_from w h,
  labels_from ws hs,
)

-- The parts of an address in a row.
pub parts-join :
    (p w : Text) (ws : List Text) (r : Text)
    → (p ++ codes "://") ++ (points (w ∷ ws) ++ r)
      ≡ p ++ (codes "://" ++ (join (codes ".") (w ∷ ws) ++ b'.' ∷ r))
parts-join p w ws r =
    append_assoc p (codes "://") (points (w ∷ ws) ++ r)
    ∙ ap (λ (x : Text). p ++ (codes "://" ++ x))
        (ap (λ (x : Text). x ++ r) (points-join w ws)
          ∙ append_assoc (join (codes ".") (w ∷ ws)) (b'.' ∷ []) r)
