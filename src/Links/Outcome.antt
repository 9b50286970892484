-- ===== src/Links/Outcome.antt =====
-- What a link shows in the end, and what was asked for.
use Prim.Native.Nat.{ℕ}
use mathlib.Core.Path.{◌≡◌, refl, sym, ap, ◌∙◌}
use mathlib.Core.Logic.{inl, inr}
use mathlib.Core.Bool.{Bool, true, false, not, ◌&&◌, ◌||◌}
use mathlib.Core.Option.{some}
use mathlib.Core.List.{List, [], ◌∷◌, ◌++◌}
use inroa.Base.{Text, codes, ◌==◌, Bool-cases, if◌then◌else◌, text_eq, text_eq_iff}
use inroa.Regex.{Matches, anything}
use inroa.Regex.Derivative.{test_iff}
use inroa.Regex.Shape.{InClass, Matches-star_iff, Matches-literal_iff}
use inroa.Links.{
  Image, img_true, img_false, unread, query, internal, finished, Request, Check, swf_reg_exp,
  is_swf, results, no_query, Event, load, success, fail, internal_success, internal_fail,
  on_resultado, step, run_events,
}
use inroa.Links.Verdict.{with_url-finished}
use inroa.Links.Finished.{IsAnswer}

-- A character that ends no line, and then swf, at the end of the text.
abbrev pub ends_in_swf : Text → Bool
ends_in_swf [] = false
ends_in_swf (c ∷ s) =
    (not (c == 10 || c == 13 || c == 0x2028 || c == 0x2029) && text_eq s (codes "swf"))
    || ends_in_swf s

Bool_ext : (a b : Bool) → (a ≡ true → b ≡ true) → (b ≡ true → a ≡ true) → a ≡ b
Bool_ext true b h k = sym (h refl)
Bool_ext false true h k = k refl
Bool_ext false false h k = refl

or_true : (b : Bool) → (b || true) ≡ true
or_true true = refl
or_true false = refl

ends_in_swf-append :
    (u : Text) (c : ℕ)
    → not (c == 10 || c == 13 || c == 0x2028 || c == 0x2029) ≡ true
    → ends_in_swf (u ++ c ∷ codes "swf") ≡ true
ends_in_swf-append [] c h = rw h refl
ends_in_swf-append (d ∷ u) c h =
    ap
      (λ b.
        (not (d == 10 || d == 13 || d == 0x2028 || d == 0x2029)
          && text_eq (u ++ c ∷ codes "swf") (codes "swf"))
        || b)
      (ends_in_swf-append u c h)
    ∙ or_true _

Matches-anything : (u : Text) → Matches anything u
Matches-anything u = (Matches-star_iff (λ c. true) u).1 (every u)
  where
    every : (u : Text) → InClass (λ c. true) u
    every [] = tt
    every (c ∷ u) = (refl, every u)

if_not : (b : Bool) → (if b then false else true) ≡ true → not b ≡ true
if_not true h = cc
if_not false h = refl

not_if : (b : Bool) → not b ≡ true → (if b then false else true) ≡ true
not_if true h = cc
not_if false h = refl

abbrev EndsInSwf : Text → Type 0
EndsInSwf s =
    (u : Text) × (c : ℕ) × (s ≡ u ++ c ∷ codes "swf")
    × (not (c == 10 || c == 13 || c == 0x2028 || c == 0x2029) ≡ true)

EndsInSwf-cons : (c : ℕ) (s : Text) → EndsInSwf s → EndsInSwf (c ∷ s)
EndsInSwf-cons c s (u, d, e, point) = (c ∷ u, d, ap (λ (t : Text). c ∷ t) e, point)

ends_in_swf-EndsInSwf : (s : Text) → ends_in_swf s ≡ true → EndsInSwf s
ends_in_swf-EndsInSwf [] h = cc
ends_in_swf-EndsInSwf (c ∷ s) h =
    elim (Bool-cases (not (c == 10 || c == 13 || c == 0x2028 || c == 0x2029))) [
      | inl point ↦ elim (Bool-cases (text_eq s (codes "swf"))) [
        | inl same ↦ ([], c, ap (λ (t : Text). c ∷ t) ((text_eq_iff s (codes "swf")).0 same), point)
        | inr other ↦ EndsInSwf-cons c s (ends_in_swf-EndsInSwf s (rw (point, other) at h))
      ]
      | inr ended ↦ EndsInSwf-cons c s (ends_in_swf-EndsInSwf s (rw ended at h))
    ]

Matches-ends_in_swf : (s : Text) → Matches swf_reg_exp s → ends_in_swf s ≡ true
Matches-ends_in_swf s (u, v, e, any, (a, b, ev, (c, ea, dot), swf)) =
    let end : b ≡ codes "swf" = (Matches-literal_iff (codes "swf") b).0 swf in
    let point : not (c == 10 || c == 13 || c == 0x2028 || c == 0x2029) ≡ true = if_not _ dot in
    let whole : s ≡ u ++ c ∷ codes "swf" = e ∙ ap (λ (t : Text). u ++ t) (ev ∙ rw (ea, end) refl) in
    rw whole (ends_in_swf-append u c point)

ends_in_swf-Matches : (s : Text) → ends_in_swf s ≡ true → Matches swf_reg_exp s
ends_in_swf-Matches s h =
    let (u, c, e, point) = ends_in_swf-EndsInSwf s h in
    (
      u,
      c ∷ codes "swf",
      e,
      Matches-anything u,
      (
        c ∷ [],
        codes "swf",
        refl,
        (c, refl, not_if _ point),
        (Matches-literal_iff (codes "swf") (codes "swf")).1 refl,
      ),
    )

is_swf_lem : (s : Text) → is_swf s ≡ ends_in_swf s
unfolding is_swf
is_swf_lem s =
    let found = test_iff swf_reg_exp s in
    Bool_ext (is_swf s) (ends_in_swf s) (λ h. Matches-ends_in_swf s (found.0 h))
      λ h. found.1 (ends_in_swf-Matches s h)

-- A link when the page is loaded.
abbrev pub fresh : Text → Check
fresh url = record { url = some url; phase = unread; asked = []; images = [] }

-- The images, by the service's answer and the server's, which counts if the service does not know the
-- link or fails.
abbrev pub images_of : Text → Event → Event → List Image
images_of url (success (results true)) second = img_true ∷ []
images_of url (success no_query) second = []
images_of url first (internal_success true) = img_true ∷ []
images_of url first (internal_success false) = if ends_in_swf url then [] else img_false ∷ []
images_of url first second = []

module _ (root_url : Text) where
  abbrev to_service : Text → Request
  to_service url = record {
    address =
        codes
          "http://query.yahooapis.com/v1/public/yql?q=select%20*%20from%20html%20where%20url%3D%22"
        ++ (url ++ codes "%22&format=json");
    fields = [];
  }

  abbrev to_server : Text → Request
  to_server url = record {
    address = root_url ++ codes "verificaUrl";
    fields = (codes "url", url) ∷ [];
  }

  -- The requests, by the service's answer.
  abbrev pub asked_of : Text → Event → List Request
  asked_of url (success (results true)) = to_service url ∷ []
  asked_of url (success no_query) = to_service url ∷ []
  asked_of url first = to_service url ∷ to_server url ∷ []

  stays_finished :
      (events : List Event) (check : Check)
      → check.phase ≡ finished
      → run_events root_url events check ≡ check
  unfolding run_events step
  stays_finished [] check p = refl
  stays_finished (event ∷ events) check p =
      ap (run_events root_url events) (with_url-finished root_url check.url event check p)
      ∙ stays_finished events check p

  -- The link when its check is over.
  abbrev pub decided : Text → Event → Event → Check
  decided url first second = record {
    url = some url;
    phase = finished;
    asked = asked_of url first;
    images = images_of url first second;
  }

  abbrev denied : Text → Event → Check
  denied url first = record (decided url first internal_fail) { phase = internal; images = [] }

  server_denies :
      (url : Text) (check : Check)
      → check.images ≡ []
      → on_resultado root_url url false check
        ≡ record check { phase = finished; images = if ends_in_swf url then [] else img_false ∷ [] }
  unfolding on_resultado
  server_denies url check e = elim (Bool-cases (ends_in_swf url)) [
    | inl swf ↦
        let found : is_swf url ≡ true = is_swf_lem url ∙ swf in
        rw (found, swf) (ap (λ (l : List Image). record check { phase = finished; images = l }) e)
    | inr other ↦
        let found : is_swf url ≡ false = is_swf_lem url ∙ other in rw (found, other, e) refl
  ]

  three :
      (c : ℕ) (url : Text) (first second : Event)
      → IsAnswer query first
      → IsAnswer internal second
      → run_events root_url (load ∷ first ∷ second ∷ []) (fresh (c ∷ url))
        ≡ decided (c ∷ url) first second
  unfolding run_events step on_resultado
  three c url (success (results true)) (internal_success found) h k = refl
  three c url (success (results true)) internal_fail h k = refl
  three c url (success no_query) (internal_success found) h k = refl
  three c url (success no_query) internal_fail h k = refl
  three c url (success (results false)) (internal_success true) h k = refl
  three c url (success (results false)) (internal_success false) h k =
      server_denies (c ∷ url) (denied (c ∷ url) (success (results false))) refl
  three c url (success (results false)) internal_fail h k = refl
  three c url (fail status) (internal_success true) h k = refl
  three c url (fail status) (internal_success false) h k =
      server_denies (c ∷ url) (denied (c ∷ url) (fail status)) refl
  three c url (fail status) internal_fail h k = refl
  three c url load second h k = absurd h
  three c url (internal_success found) second h k = absurd h
  three c url internal_fail second h k = absurd h
  three c url _ _ h k = absurd k

  -- A link with an address that is not empty, once the page is loaded, the service has answered or
  -- failed, and the server has, whatever comes after: the service was asked for it, and the server
  -- exactly if the service failed or had no results; behind it is the image for an active link if one
  -- of the two found it, the one for a broken link if the server did not and the address does not end
  -- in swf behind a character that ends no line, and else none.
  pub run_events-decided :
      (c : ℕ) (url : Text) (first second : Event) (after : List Event)
      → IsAnswer query first
      → IsAnswer internal second
      → run_events root_url (load ∷ first ∷ second ∷ after) (fresh (c ∷ url))
        ≡ decided (c ∷ url) first second
  unfolding run_events
  run_events-decided c url first second after h k =
      ap (run_events root_url after) (three c url first second h k)
      ∙ stays_finished after (decided (c ∷ url) first second) refl
