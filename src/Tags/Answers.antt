-- ===== src/Tags/Answers.antt =====
-- Which lines an answer removes.
use Prim.Native.Nat.{ℕ}
use mathlib.Core.Path.{◌≡◌, refl, ap, ◌∙◌}
use mathlib.Core.Logic.{inl, inr}
use mathlib.Core.Bool.{Bool, false}
use mathlib.Core.Option.{some}
use mathlib.Core.List.{List, [], ◌∷◌, ◌++◌}
use inroa.Base.{Text, codes, text_eq, Bool-cases, keep, not}
use inroa.Tags.{Link, Line, Page, holds, click, Resultado, message_of, on_resultado}

abbrev pub deletar : Text
deletar = codes "deletar"

-- The table without the line of a link.
abbrev pub without : Link → List Line → List Line
without link = keep (λ line. not (holds link.node line))

keep-keep : {A : Type 0} (p : A → Bool) (xs : List A) → keep p (keep p xs) ≡ keep p xs
keep-keep p [] = refl
keep-keep p (x ∷ xs) = elim (Bool-cases (p x)) [
  | inl kept ↦ rw (keep, kept, keep, kept) (ap (λ l. x ∷ l) (keep-keep p xs))
  | inr out ↦ rw (keep, out) (keep-keep p xs)
]

module _ (unescape : Text → Text) where
  -- An answer that tells of a success: it has a type, and this is not the error.
  pub record IsSuccess (resultado : Resultado) : Type 0 where
    pub first : ℕ
    pub rest : Text
    pub type : resultado.type ≡ some (first ∷ rest)
    pub no_error : text_eq (unescape (first ∷ rest)) (codes "error") ≡ false

  -- What the message shows after such an answer.
  abbrev pub told : (resultado : Resultado) → IsSuccess resultado → Page → Page
  told resultado success page = record page {
    classes = page.classes ++ unescape (success.first ∷ success.rest) ∷ [];
    msg_text = unescape (message_of resultado);
  }

  success-state :
      (resultado : Resultado) (success : IsSuccess resultado) (link : Link) (page : Page)
      → link.label ≡ deletar
      → page.this ≡ some link
      → on_resultado unescape resultado page
        ≡ told resultado success (record page { lines = without link page.lines })
  unfolding on_resultado
  success-state resultado success link page label this =
      rw (success.type, success.no_error, this, label) refl

  -- A click on a term's link and an answer that tells of a success, with nothing between, remove the
  -- line of this link and no other, and show the message.
  pub on_resultado-click :
      (resultado : Resultado) (success : IsSuccess resultado) (link : Link) (page : Page)
      → link.label ≡ deletar
      → on_resultado unescape resultado (click link page)
        ≡ told resultado success (record (click link page) { lines = without link page.lines })
  unfolding click
  on_resultado-click resultado success link page label =
      success-state resultado success link
        (record page { this = some link; posts = page.posts ++ link.href ∷ [] }) label refl

  -- If a second term's link is clicked before the first is answered, then after two answers that tell
  -- of a success only the second one's line is gone: the line of the first stays, although the term
  -- was deleted.
  pub on_resultado-race :
      (first second : Link) (resultado resultado' : Resultado) (page : Page)
      → IsSuccess resultado
      → IsSuccess resultado'
      → second.label ≡ deletar
      → (on_resultado unescape resultado'
          (on_resultado unescape resultado (click second (click first page)))).lines
        ≡ without second page.lines
  unfolding click
  on_resultado-race first second resultado resultado' page success success' label =
      let clicked : Page = record page {
        this = some second;
        posts = (page.posts ++ first.href ∷ []) ++ second.href ∷ [];
      } in
      ap (λ p. (on_resultado unescape resultado' p).lines)
        (success-state resultado success second clicked label refl)
      ∙ ap Page.lines (
          success-state resultado' success' second
            (told resultado success (record clicked { lines = without second page.lines })) label
            refl)
      ∙ keep-keep (λ line. not (holds second.node line)) page.lines
