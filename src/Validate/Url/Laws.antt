-- ===== src/Validate/Url/Laws.antt =====
-- `isURL` against the parts of an address.
use mathlib.Core.Path.{◌≡◌, refl, sym, ◌∙◌}
use mathlib.Core.Logic.{◌↔◌, inl, inr}
use mathlib.Core.Bool.{true}
use mathlib.Core.List.{[], ◌∷◌, ◌++◌}
use inroa.Base.{Text, codes}
use inroa.Regex.{Regex, Matches, seq, set, plus, repeat_to}
use inroa.Regex.Derivative.{test_iff}
use inroa.Regex.Shape.{Matches-repeat_to_iff}
use inroa.Validate.Formats.{to_lower_case, scheme, port_and_path, is_url}
use inroa.Validate.Url.{is_letter, IsScheme, IsUrl}
use inroa.Validate.Url.Parts.{
  IsPort-iff, IsPath-iff, scheme_to, scheme_from, plus_to, plus_from, parts-join, points, label_reg,
}

abbrev url_reg : Regex
url_reg = seq scheme (seq (plus label_reg) (seq (repeat_to 2 4 (set is_letter)) port_and_path))

Matches-IsUrl : (s : Text) → Matches url_reg s → IsUrl s
unfolding port_and_path
Matches-IsUrl s (u, s1, e, h, (u1, s2, e1, h1, (t, s3, e2, h2, (port, path, e3, h3, h4)))) =
    let (p, f, proto) = scheme_to u h in
    let (w, ws, g, words) = plus_to u1 h1 in
    let (least, most, letters) = (Matches-repeat_to_iff 2 4 is_letter t).0 h2 in
    record {
      protocol = p;
      label = w;
      labels = ws;
      last = t;
      port = port;
      path = path;
      text = e ∙ rw (e1, e2, e3, f, g) (parts-join p w ws (t ++ (port ++ path)));
      is_scheme = proto;
      words = words;
      at_least = least;
      at_most = most;
      letters = letters;
      is_port = (IsPort-iff port).0 h3;
      is_path = (IsPath-iff path).0 h4;
    }

IsUrl-Matches : (s : Text) → IsUrl s → Matches url_reg s
unfolding port_and_path
IsUrl-Matches s q =
    let last = (Matches-repeat_to_iff 2 4 is_letter q.last).1 (q.at_least, q.at_most, q.letters) in
    let port = (IsPort-iff q.port).1 q.is_port in
    let path = (IsPath-iff q.path).1 q.is_path in
    (
      q.protocol ++ codes "://",
      _,
      q.text ∙ sym (parts-join q.protocol q.label q.labels (q.last ++ (q.port ++ q.path))),
      scheme_from q.protocol q.is_scheme,
      (
        points (q.label ∷ q.labels),
        _,
        refl,
        plus_from q.label q.labels q.words,
        (q.last, q.port ++ q.path, refl, last, (q.port, q.path, refl, port, path)),
      ),
    )

nonempty_scheme : (p r : Text) → IsScheme p → ¬ ([] ≡ p ++ r)
nonempty_scheme p r (inl x) e = cc (rw x at e)
nonempty_scheme p r (inr (inl x)) e = cc (rw x at e)
nonempty_scheme p r (inr (inr (inl x))) e = cc (rw x at e)
nonempty_scheme p r (inr (inr (inr x))) e = cc (rw x at e)

-- `isURL` accepts exactly the texts that are, in small letters, one of four schemes, a host of at
-- least one word and a last part of two to six letters, between points, and, if there are, a port of
-- digits and a path without white space.
pub is_url_iff : (s : Text) → (is_url s ≡ true) ↔ IsUrl (to_lower_case s)
unfolding is_url
is_url_iff [] = (λ h. cc, λ q. absurd (nonempty_scheme q.protocol _ q.is_scheme q.text))
is_url_iff (c ∷ s) = (
  λ h. Matches-IsUrl _ ((test_iff url_reg (to_lower_case (c ∷ s))).0 h),
  λ q. (test_iff url_reg (to_lower_case (c ∷ s))).1 (IsUrl-Matches _ q),
)
