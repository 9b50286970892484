-- ===== src/Oai/Verdict.antt =====
-- What the border, the text and the button of the form say about the link.
use Prim.Native.Nat.{ℕ, suc}
use mathlib.Core.Path.{◌≡◌, refl, ap, ◌∙◌}
use mathlib.Core.Logic.{inl, inr}
use mathlib.Core.Bool.{Bool, true, false, not, ◌&&◌, ◌||◌}
use mathlib.Core.Option.{none, some}
use mathlib.Core.List.{List, [], ◌∷◌, ◌++◌}
use inroa.Base.{
  Text, length, get_elem?, get_elem?-second, get_elem?-third, starts_with, starts_with_http, codes,
  text_eq, if◌then◌else◌, Bool-cases,
}
use inroa.Oai.{
  Form, Event, type_url, blur, resultado_event, effects, set_url_error, set_url_success, is_typed,
  is_federation, verifica_link, on_resultado, step, run_events, loader,
}

-- The border, the error text and the button agree: a red link cannot be sent, a green one can, and no
-- link is both.
pub record IsSettled (form : Form) : Type 0 where
  pub one_border : (form.is_red && form.is_green) ≡ false
  pub red : form.is_red ≡ true → (form.is_submit_disabled ≡ true) × (form.is_texto_erro ≡ true)
  pub green :
      form.is_green ≡ true → (form.is_submit_disabled ≡ false) × (form.is_texto_erro ≡ false)

set_url_error-IsSettled : (form : Form) → IsSettled (effects set_url_error form)
set_url_error-IsSettled form = record {
  one_border = refl;
  red = λ _. (refl, refl);
  green = λ h. cc;
}

set_url_success-IsSettled : (form : Form) → IsSettled (effects set_url_success form)
set_url_success-IsSettled form = record {
  one_border = refl;
  red = λ h. cc;
  green = λ _. (refl, refl);
}

on_resultado-IsSettled :
    (resultado : Bool) (form : Form) → IsSettled (effects (on_resultado resultado) form)
on_resultado-IsSettled true form = set_url_success-IsSettled form
on_resultado-IsSettled false form = set_url_error-IsSettled form

module _ (root_url : Text) (trim : Text → Text) where
  blur-IsSettled : (form : Form) → IsSettled form → IsSettled (step root_url trim blur form)
  blur-IsSettled form h = elim (Bool-cases (starts_with_http form.url)) [
    | inr other ↦ rw other (record { one_border = refl; red = λ _. (refl, refl); green = λ g. cc })
    | inl http ↦ elim (Bool-cases (is_typed (trim form.url))) [
      | inl typed ↦
          rw (http, typed) (record { one_border = h.one_border; red = h.red; green = h.green })
      | inr blank ↦ rw (http, blank) (set_url_error-IsSettled form)
    ]
  ]

  step-IsSettled :
      (event : Event) (form : Form) → IsSettled form → IsSettled (step root_url trim event form)
  step-IsSettled (type_url url) form h = record {
    one_border = h.one_border;
    red = h.red;
    green = h.green;
  }
  step-IsSettled blur form h = blur-IsSettled form h
  step-IsSettled (resultado_event i resultado) form h =
      elim (get_elem? form.links i)
        as (λ o.
          IsSettled (elim o [ none ↦ form | some link ↦ effects (on_resultado resultado) form ])) [
            | none ↦ h
            | some link ↦ on_resultado-IsSettled resultado form
          ]

  -- Whatever the user does and whenever the server answers, the border, the error text and the button
  -- go on to agree.
  pub run_events-IsSettled :
      (events : List Event) (form : Form)
      → IsSettled form
      → IsSettled (run_events root_url trim events form)
  unfolding run_events
  run_events-IsSettled [] form h = h
  run_events-IsSettled (event ∷ events) form h =
      run_events-IsSettled events (step root_url trim event form) (step-IsSettled event form h)

  -- A link that starts as it should and, once it is trimmed, is neither empty nor just http://.
  abbrev pub is_asked : Text → Bool
  is_asked url =
      (starts_with (codes "http://") url || starts_with (codes "https://") url)
      && (not (text_eq (trim url) []) && not (text_eq (trim url) (codes "http://")))

  -- Asking for a link as a change of the form.
  abbrev pub asked : Form → Form
  asked form = record form {
    resultado = loader root_url;
    links =
        form.links ++ verifica_link root_url (is_federation form.federation) (trim form.url) ∷ [];
  }

  -- A link that is refused at once; the message is about its start.
  abbrev pub refused : Form → Form
  refused form = record form {
    is_red = true;
    is_green = false;
    resultado = codes "Link inv&aacute;lido!";
    is_texto_erro = true;
    is_submit_disabled = true;
    msg_error =
        if starts_with (codes "http://") form.url || starts_with (codes "https://") form.url
        then form.msg_error
        else codes "A url deve iniciar com http:// ou https://";
  }

  -- When the input is left: a link that starts with http:// or https:// and, once it is trimmed, is
  -- neither empty nor just http:// is asked for, trimmed, and of the form only the result changes,
  -- which shows the image of a check that runs; any other link is not asked for, its input is red,
  -- the result says that the link is invalid, the form cannot be sent, and if the link starts
  -- otherwise, the message says how it has to start.
  pub blur-asks :
      (form : Form)
      → step root_url trim blur form ≡ (if is_asked form.url then asked form else refused form)
  unfolding starts_with_http
  blur-asks form =
      elim (Bool-cases
        (starts_with (codes "http://") form.url || starts_with (codes "https://") form.url)) [
          | inr other ↦ rw other refl
          | inl http ↦ elim (Bool-cases (text_eq (trim form.url) [])) [
            | inl blank ↦ rw (http, blank) refl
            | inr some_text ↦ elim (Bool-cases (text_eq (trim form.url) (codes "http://"))) [
              | inl scheme ↦ rw (http, some_text, scheme) refl
              | inr more ↦ rw (http, some_text, more) refl
            ]
          ]
        ]

  blur-asked :
      (form : Form)
      → starts_with_http form.url ≡ true
      → is_typed (trim form.url) ≡ true
      → step root_url trim blur form ≡ asked form
  blur-asked form http typed = rw (http, typed) refl

  resultado-step :
      (i : ℕ) (link : Text) (resultado : Bool) (form : Form)
      → get_elem? form.links i ≡ some link
      → step root_url trim (resultado_event i resultado) form
        ≡ effects (on_resultado resultado) form
  resultado-step i link resultado form e = rw (step, e) refl

  -- If a second link is typed while the first is still being checked, and the answer to the first
  -- comes last, then this answer decides: a first link that is right allows a second one to be sent
  -- that the server has found wrong.
  pub run_events-stale :
      (form : Form) (first second : Text)
      → starts_with_http first ≡ true
      → is_typed (trim first) ≡ true
      → starts_with_http second ≡ true
      → is_typed (trim second) ≡ true
      → run_events root_url trim
          (type_url first
            ∷ blur
            ∷ type_url second
            ∷ blur
            ∷ resultado_event (suc (length form.links)) false
            ∷ resultado_event (length form.links) true
            ∷ [])
          form
        ≡ record form {
          url = second;
          is_red = false;
          is_green = true;
          resultado = [];
          is_texto_erro = false;
          is_submit_disabled = false;
          links =
              (form.links
                ++ verifica_link root_url (is_federation form.federation) (trim first) ∷ [])
              ++ verifica_link root_url (is_federation form.federation) (trim second) ∷ [];
        }
  unfolding run_events
  run_events-stale form first second http typed http' typed' =
      ap
        (λ f. step root_url trim (resultado_event n true) (
          step root_url trim (resultado_event (suc n) false)
            (step root_url trim blur (record f { url = second }))))
        (blur-asked (record form { url = first }) http typed)
      ∙ ap
          (λ f.
            step root_url trim (resultado_event n true)
              (step root_url trim (resultado_event (suc n) false) f))
          (blur-asked _ http' typed')
      ∙ ap (step root_url trim (resultado_event n true))
          (resultado-step (suc n) _ false _ (get_elem?-third form.links _ _))
      ∙ resultado-step n _ true _ (get_elem?-second form.links _ _)
    where
      n : ℕ
      n = length form.links
