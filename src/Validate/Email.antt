-- ===== src/Validate/Email.antt =====
-- scripts/validatejs.js, `isEMailAddr`: the addresses that it accepts.
use Prim.Native.Nat.{ℕ, ◌≤◌}
use mathlib.Core.Path.{◌≡◌, refl, sym, ap, ◌∙◌}
use mathlib.Core.Logic.{◌↔◌, ◌≢◌}
use mathlib.Core.Bool.{Bool, true}
use mathlib.Core.List.{List, [], ◌∷◌, ◌++◌, append_assoc, append-nil}
use inroa.Base.{Text, codes, All, length, join}
use inroa.Regex.{Regex, Star, done, more, Matches, seq, set, star, plus, char}
use inroa.Regex.Derivative.{test_iff}
use inroa.Regex.Shape.{InClass, Matches-plus_iff, Matches-char_iff, Matches-repeat_to_iff}
use inroa.Validate.Formats.{is_local_char, is_label_char, is_lower, email_reg_exp, is_email_addr}

-- A text of the class that is not empty.
abbrev pub IsWord : (ℕ → Bool) → Text → Type 0
IsWord p s = (s ≢ []) × InClass p s

-- A local part and a host of words between points, and a last part of two to four letters.
pub record IsEmail (s : Text) : Type 0 where
  pub local : Text
  pub locals : List Text
  pub host : Text
  pub hosts : List Text
  pub last : Text
  pub text :
      s
      ≡ join (codes ".") (local ∷ locals) ++ b'@' ∷ (join (codes ".") (host ∷ hosts) ++ b'.' ∷ last)
  pub local_words : All (IsWord is_local_char) (local ∷ locals)
  pub host_words : All (IsWord is_label_char) (host ∷ hosts)
  pub at_least : 2 ≤ length last
  pub at_most : length last ≤ 4
  pub letters : InClass is_lower last

-- Words, each behind a point.
abbrev dots : List Text → Text
dots [] = []
dots (w ∷ ws) = b'.' ∷ (w ++ dots ws)

dots-join : (w : Text) (ws : List Text) → w ++ dots ws ≡ join (codes ".") (w ∷ ws)
unfolding join
dots-join w [] = simp append-nil
dots-join w (x ∷ ws) = ap (λ (t : Text). w ++ b'.' ∷ t) (dots-join x ws)

-- The parts of an address in a row.
address-join :
    (l : Text) (ls : List Text) (h : Text) (hs : List Text) (t : Text)
    → l ++ (dots ls ++ b'@' ∷ (h ++ (dots hs ++ b'.' ∷ t)))
      ≡ join (codes ".") (l ∷ ls) ++ b'@' ∷ (join (codes ".") (h ∷ hs) ++ b'.' ∷ t)
address-join l ls h hs t =
    sym (append_assoc l (dots ls) (b'@' ∷ (h ++ (dots hs ++ b'.' ∷ t))))
    ∙ (ap (λ (u : Text). u ++ b'@' ∷ (h ++ (dots hs ++ b'.' ∷ t))) (dots-join l ls)
        ∙ ap (λ (u : Text). join (codes ".") (l ∷ ls) ++ b'@' ∷ u)
            (sym (append_assoc h (dots hs) (b'.' ∷ t))
              ∙ ap (λ (u : Text). u ++ b'.' ∷ t) (dots-join h hs)))

-- `(\.[…]+)*`
abbrev more_words : (ℕ → Bool) → Regex
more_words p = star (seq (char b'.') (plus (set p)))

abbrev Words : (ℕ → Bool) → Text → Type 0
Words p s = (ws : List Text) × (s ≡ dots ws) × All (IsWord p) ws

Star→Words :
    {p : ℕ → Bool} {s : Text} → Star (Matches (seq (char b'.') (plus (set p)))) s → Words p s
Star→Words done = ([], refl, tt)
Star→Words {p} (more (u, v, e, dot, word) k e') =
    let (ws, f, h) = Star→Words k in
    (
      v ∷ ws,
      e' ∙ rw (e, (Matches-char_iff b'.' u).0 dot, f) refl,
      ((Matches-plus_iff p v).0 word, h),
    )

Words→Star :
    (p : ℕ → Bool) (ws : List Text)
    → All (IsWord p) ws
    → Star (Matches (seq (char b'.') (plus (set p)))) (dots ws)
Words→Star p [] h = done
Words→Star p (w ∷ ws) (h, hs) =
    more
      (b'.' ∷ [], w, refl, (Matches-char_iff b'.' (b'.' ∷ [])).1 refl, (Matches-plus_iff p w).1 h)
      (Words→Star p ws hs) refl

Matches-IsEmail : (s : Text) → Matches email_reg_exp s → IsEmail s
unfolding email_reg_exp
Matches-IsEmail s
      (
        l,
        s1,
        e,
        hl,
        (ls, s2, e1, hls, (a, s3, e2, ha, (h, s4, e3, hh, (hs, s5, e4, hhs, (d, t, e5, hd, ht))))),
      ) =
    let (locals, fl, wl) = Star→Words hls in
    let (hosts, fh, wh) = Star→Words hhs in
    let (least, most, letters) = (Matches-repeat_to_iff 2 2 is_lower t).0 ht in
    record {
      local = l;
      locals = locals;
      host = h;
      hosts = hosts;
      last = t;
      text =
          e
          ∙ rw
              (
                e1,
                e2,
                e3,
                e4,
                e5,
                (Matches-char_iff b'@' a).0 ha,
                (Matches-char_iff b'.' d).0 hd,
                fl,
                fh,
              )
              (address-join l locals h hosts t);
      local_words = ((Matches-plus_iff is_local_char l).0 hl, wl);
      host_words = ((Matches-plus_iff is_label_char h).0 hh, wh);
      at_least = least;
      at_most = most;
      letters = letters;
    }

IsEmail-Matches : (s : Text) → IsEmail s → Matches email_reg_exp s
unfolding email_reg_exp
IsEmail-Matches s q =
    let at : Matches (char b'@') (b'@' ∷ []) = (Matches-char_iff b'@' _).1 refl in
    let dot : Matches (char b'.') (b'.' ∷ []) = (Matches-char_iff b'.' _).1 refl in
    let last = (Matches-repeat_to_iff 2 2 is_lower q.last).1 (q.at_least, q.at_most, q.letters) in
    let host = (Matches-plus_iff is_label_char q.host).1 q.host_words.0 in
    let hosts = Words→Star is_label_char q.hosts q.host_words.1 in
    let locals = Words→Star is_local_char q.locals q.local_words.1 in
    (
      q.local,
      _,
      q.text ∙ sym (address-join q.local q.locals q.host q.hosts q.last),
      (Matches-plus_iff is_local_char q.local).1 q.local_words.0,
      (
        dots q.locals,
        _,
        refl,
        locals,
        (
          b'@' ∷ [],
          _,
          refl,
          at,
          (q.host, _, refl, host, (dots q.hosts, _, refl, hosts, (b'.' ∷ [], _, refl, dot, last))),
        ),
      ),
    )

-- `isEMailAddr` accepts exactly a local part and a host, each of words between points that are not
-- empty, around an @, with a last part of two to four small letters: large letters are refused.
pub is_email_addr_iff : (s : Text) → (is_email_addr s ≡ true) ↔ IsEmail s
unfolding is_email_addr
is_email_addr_iff s = (
  λ h. Matches-IsEmail s ((test_iff email_reg_exp s).0 h),
  λ q. (test_iff email_reg_exp s).1 (IsEmail-Matches s q),
)
