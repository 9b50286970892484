-- ===== src/Validate/Login.antt =====
-- scripts/login.js: the rules of the login form.
use Prim.Native.Nat.{ℕ, ◌<◌}
use mathlib.Core.Path.{◌≡◌, refl, ap}
use mathlib.Core.Logic.{◌↔◌, ◌⊎◌, ◌≢◌, inl, inr}
use mathlib.Core.Bool.{Bool, true, false, not}
use mathlib.Core.Option.{Option, none, some}
use mathlib.Core.List.{List, [], ◌∷◌}
use native.Mathlib.Omega.{arith}
use inroa.Base.{Text, codes, text_eq, Bool-cases, if◌then◌else◌, is_space, Holds, any-Holds_iff}
use inroa.Validate.Engine.{Engine, Result, ok, throws, type_error}
use inroa.Validate.Formats.{is_empty}
use inroa.Validate.Rules.{
  Rule, Validate, Document, silent, add_rules, initialize, rule_fails, apply, report_on, ◌>>=◌,
}
use inroa.Validate.Rules.Laws.{HaveVerdicts, errors_of, check-errors_of}

abbrev pub user_error : Text
user_error = codes "* Voc&ecirc; deve informar o seu nome de usu&aacute;rio!"

abbrev pub passwd_error : Text
passwd_error = codes "* Voc&ecirc; deve informar sua senha!"

not-false : (b : Bool) → not b ≡ false → b ≡ true
not-false true h = refl
not-false false h = cc

-- A code unit that is no white space and no line end, by the table of ECMAScript.
abbrev pub IsInk : ℕ → Type 0
IsInk c =
    ((c < 9) ⊎ (13 < c))
    × (c ≢ 32)
    × (c ≢ 0xa0)
    × (c ≢ 0x1680)
    × ((c < 0x2000) ⊎ (0x200a < c))
    × (c ≢ 0x2028)
    × (c ≢ 0x2029)
    × (c ≢ 0x202f)
    × (c ≢ 0x205f)
    × (c ≢ 0x3000)
    × (c ≢ 0xfeff)

not_space-IsInk : (c : ℕ) → not (is_space c) ≡ true → IsInk c
not_space-IsInk c h = ground arith

IsInk-not_space : (c : ℕ) → IsInk c → not (is_space c) ≡ true
IsInk-not_space c h = ground arith

is_empty_iff : (s : Text) → (is_empty s ≡ false) ↔ Holds IsInk s
unfolding is_empty
is_empty_iff s =
    let (to, from) =
      any-Holds_iff IsInk (λ c. not (is_space c)) not_space-IsInk IsInk-not_space s in
    (λ h. to (not-false _ h), λ h. ap not (from h))

-- What `Apply` does about errors is never to accept.
report_on-refuses :
    (document : Document) (el : Option Text) (errors : List Text)
    → ¬ (report_on document el errors ≡ ok (true, silent))
report_on-refuses document none errors h = cc
report_on-refuses document (some []) errors h = cc
report_on-refuses document (some (c ∷ s)) errors h =
    elim (Bool-cases (document.has_element (c ∷ s))) [
      | inl there ↦ cc (rw there at h)
      | inr missing ↦ cc (rw missing at h)
    ]

module _ (engine : Engine) where
  open engine use {Float}

  -- A rule with the option `required`.
  abbrev pub required : Text → Text → Rule Float
  required id error = record {
    id = id;
    option = codes "required";
    error = error;
    chars = none;
    min = none;
    max = none;
    country = none;
    format = none;
    to = none;
  }

  unfoldable pub my_form : Validate Float
  unfolding add_rules initialize
  my_form =
      add_rules engine (required (codes "passwd") passwd_error)
        (add_rules engine (required (codes "user") user_error) (initialize engine))

  -- The verdict on a field with the value `u` or `p`.
  abbrev pub login_fails : Text → Text → Rule Float → Bool
  login_fails u p rule = is_empty (elim (text_eq rule.id (codes "user")) [ true ↦ u | false ↦ p ])

  required_verdict :
      (document : Document) (id error v : Text)
      → document.value id ≡ some v
      → rule_fails engine document (required id error) ≡ ok (is_empty v)
  unfolding rule_fails
  required_verdict document id error v h =
      ap
        (λ o. (elim o as (λ _. Result Text) [ none ↦ throws type_error | some w ↦ ok w ]) >>= λ w.
          ok (is_empty w))
        h

  pub verdicts :
      (document : Document) (u p : Text)
      → document.value (codes "user") ≡ some u
      → document.value (codes "passwd") ≡ some p
      → HaveVerdicts engine document (login_fails u p) my_form.rules_array
  unfolding my_form
  verdicts document u p hu hp = (
    ((refl, refl), required_verdict document (codes "user") user_error u hu),
    (((refl, refl), required_verdict document (codes "passwd") passwd_error p hp), tt),
  )

  -- A rule for each field, and none of them throws: `Apply` accepts exactly if no error is found.
  accepts_iff :
      (document : Document) (el : Option Text) (u p : Text)
      → document.value (codes "user") ≡ some u
      → document.value (codes "passwd") ≡ some p
      → ((apply engine document el my_form).0 ≡ ok (true, silent))
        ↔ ((is_empty u ≡ false) × (is_empty p ≡ false))
  unfolding apply my_form errors_of
  accepts_iff document el u p hu hp =
      rw (check-errors_of engine document (login_fails u p) my_form (verdicts document u p hu hp))
        (elim (Bool-cases (is_empty u)) [
          | inl e ↦ rw e (
            λ h. absurd (
                report_on-refuses document el
                  (user_error ∷ (if is_empty p then passwd_error ∷ [] else [])) h),
            λ (a, b). cc,
          )
          | inr e ↦ elim (Bool-cases (is_empty p)) [
            | inl f ↦
                rw (e, f)
                  (λ h. absurd (report_on-refuses document el (passwd_error ∷ []) h), λ (a, b). cc)
            | inr f ↦ rw (e, f) (λ h. (refl, refl), λ h. refl)
          ]
        ])

  -- With both fields on the page, `Apply` accepts exactly if both hold a character that is no white
  -- space, whatever element it is given for the errors.
  pub apply-my_form :
      (document : Document) (el : Option Text) (u p : Text)
      → document.value (codes "user") ≡ some u
      → document.value (codes "passwd") ≡ some p
      → ((apply engine document el my_form).0 ≡ ok (true, silent)) ↔ (Holds IsInk u × Holds IsInk p)
  apply-my_form document el u p hu hp =
      let (to, from) = accepts_iff document el u p hu hp in
      (
        λ h. let (a, b) = to h in ((is_empty_iff u).0 a, (is_empty_iff p).0 b),
        λ (a, b). from ((is_empty_iff u).1 a, (is_empty_iff p).1 b),
      )
