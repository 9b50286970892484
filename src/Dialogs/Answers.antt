-- ===== src/Dialogs/Answers.antt =====
-- What becomes of the dialogs when a deletion is answered.
use Prim.Native.Nat.{◌+◌}
use mathlib.Core.Path.{◌≡◌, refl, ◌∙◌}
use mathlib.Core.Logic.{inl, inr}
use mathlib.Core.Bool.{true, false}
use inroa.Base.{Text, codes, ◌==◌, ==_iff, if◌then◌else◌, Bool-cases}
use inroa.Dialogs.{Page, Answer, notice, delete_link, apagar, deletando, on_answer, close_error}

-- What an answer with its status tells: 200 is no error, and 403 is one.
abbrev pub IsHttp : Answer → Type 0
IsHttp answer =
    (answer.status ≡ 200 → answer.is_error ≡ false) × (answer.status ≡ 403 → answer.is_error ≡ true)

-- The end of a deletion that failed, as the user sees it.
abbrev pub failed : Answer → Page → Page
failed answer page = record page {
  is_confirm_open = false;
  is_error_open = true;
  text_status = answer.text_status;
  error_thrown =
      (if answer.status == 403
        then codes "Não é possível apagar o último usuário do sistema"
        else answer.error_thrown);
}

-- If status 200 is no error, and 403 is one: an answer with status 200 closes the dialog that
-- asks and loads the page again, without the dialog for errors; an error closes it and opens the
-- dialog for errors, which says that the last user cannot be deleted if the status is 403, and
-- otherwise what the request says; any other answer changes nothing.
pub on_answer-cases :
    (answer : Answer) (page : Page)
    → IsHttp answer
    → on_answer answer page ≡ (
        if answer.status == 200
        then record page { is_confirm_open = false; reloads = page.reloads + 1 }
        else if answer.is_error
        then failed answer page
        else page)
unfolding on_answer
on_answer-cases answer page (ok, denied) = elim (Bool-cases (answer.status == 200)) [
  | inl s ↦ let fine = ok ((==_iff answer.status 200).0 s) in rw (s, fine) refl
  | inr n ↦ elim (Bool-cases answer.is_error) [
    | inl e ↦ elim (Bool-cases (answer.status == 403)) [
      | inl d ↦ rw (e, n, d) refl
      | inr o ↦ rw (e, n, o) refl
    ]
    | inr fine ↦ elim (Bool-cases (answer.status == 403)) [
      | inl d ↦ let error = denied ((==_iff answer.status 403).0 d) in cc
      | inr o ↦ rw (fine, n, o) refl
    ]
  ]
]

error-not_ok :
    (answer : Answer) → IsHttp answer → answer.is_error ≡ true → (answer.status == 200) ≡ false
error-not_ok answer (ok, denied) e = elim (Bool-cases (answer.status == 200)) [
  | inl s ↦ let fine = ok ((==_iff answer.status 200).0 s) in cc
  | inr n ↦ n
]

-- If a deletion ended with an error (status 200 is none, and 403 is one), and the dialog for
-- errors is closed by its cross, so that the page is not loaded again, then the next deletion is
-- asked in a dialog without buttons that still says that something is being deleted: it cannot be
-- confirmed.
pub delete_link-close_error :
    (root_url href title : Text) (answer : Answer) (page : Page)
    → IsHttp answer
    → answer.is_error ≡ true
    → let after : Page =
        delete_link href title (close_error (on_answer answer (apagar root_url page))) in
      (after.is_confirm_open ≡ true)
      × (after.has_buttons ≡ false)
      × (after.content ≡ notice (deletando root_url))
      × (after.reloads ≡ page.reloads)
unfolding delete_link apagar
delete_link-close_error root_url href title answer page http e =
    let same : on_answer answer (apagar root_url page) ≡ failed answer (apagar root_url page) =
      on_answer-cases answer (apagar root_url page) http
      ∙ rw (error-not_ok answer http e, e) refl in
    rw same (refl, refl, refl, refl)
