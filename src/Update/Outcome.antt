-- ===== src/Update/Outcome.antt =====
-- What the user sees of an update.
use Prim.Native.Nat.{ℕ}
use mathlib.Core.Path.{◌≡◌, refl, ◌∙◌}
use mathlib.Core.Logic.{◌↔◌, ◌≢◌, ◌⊎◌, inl, inr}
use mathlib.Core.Bool.{Bool, true, false}
use mathlib.Core.Option.{Option, none, some}
use mathlib.Core.List.{List, [], ◌∷◌, ◌++◌}
use native.Mathlib.Omega.{arith}
use inroa.Base.{Text, codes, ◌==◌, parse_int, is_positive, All, Bool-cases}
use inroa.Update.{
  ShowResults, show_number, show_response, Change, on_ready_state_change, run_changes,
}

-- The response of an update that went well: status 200 and a text that begins with a positive number.
pub record IsDone (c : Change) : Type 0 where
  pub number : Bool × ℕ
  pub fine : c.status ≡ 200
  pub parsed : parse_int c.response_text ≡ some number
  pub positive : is_positive number ≡ true

-- The class tells success from failure on every branch.
show_number-class :
    (resultado : Text) (n : Option (Bool × ℕ))
    → ((show_number resultado n).class_name ≡ codes "sucesso")
    → (m : Bool × ℕ) × (n ≡ some m) × (is_positive m ≡ true)
show_number-class resultado none e = cc
show_number-class resultado (some m) e = elim (Bool-cases (is_positive m)) [
  | inl p ↦ (m, refl, p)
  | inr p ↦ cc (rw p at e)
]

show_response-class :
    (c : Change) → (show_response c.status c.response_text).class_name ≡ codes "sucesso" → IsDone c
unfolding show_response
show_response-class c e = elim (Bool-cases (c.status == 200)) [
  | inl ok ↦
      let (n, parsed, positive) =
        show_number-class c.response_text (parse_int c.response_text) (rw ok at e) in
      record { number = n; fine = ground arith; parsed = parsed; positive = positive }
  | inr other ↦ elim (Bool-cases (c.status == 403)) [
    | inl denied ↦ cc (rw (other, denied) at e)
    | inr failed ↦ cc (rw (other, failed) at e)
  ]
]

IsDone-class :
    (c : Change) → IsDone c → (show_response c.status c.response_text).class_name ≡ codes "sucesso"
unfolding show_response
IsDone-class c d = rw (d.fine, d.parsed, d.positive)

-- Every response is marked as a success or as an error.
class-cases :
    (c : Change)
    → ((show_response c.status c.response_text).class_name ≡ codes "sucesso")
      ⊎ ((show_response c.status c.response_text).class_name ≡ codes "textoErro")
unfolding show_response
class-cases c = elim (Bool-cases (c.status == 200)) [
  | inl ok ↦ rw ok (number-cases (parse_int c.response_text))
  | inr other ↦ elim (Bool-cases (c.status == 403)) [
    | inl denied ↦ rw (other, denied) (inr refl)
    | inr failed ↦ rw (other, failed) (inr refl)
  ]
]
  where
    number-cases :
        (n : Option (Bool × ℕ))
        → ((show_number c.response_text n).class_name ≡ codes "sucesso")
          ⊎ ((show_number c.response_text n).class_name ≡ codes "textoErro")
    number-cases none = inr refl
    number-cases (some m) = elim (Bool-cases (is_positive m)) [
      | inl p ↦ rw p (inl refl)
      | inr p ↦ rw p (inr refl)
    ]

run_changes-append :
    (before after : List Change) (show : ShowResults)
    → run_changes (before ++ after) show ≡ run_changes after (run_changes before show)
unfolding run_changes
run_changes-append [] after show = refl
run_changes-append (c ∷ before) after show =
    run_changes-append before after (on_ready_state_change c show)

waiting :
    (changes : List Change) (show : ShowResults)
    → All (λ c. c.ready_state ≢ 4) changes
    → run_changes changes show ≡ show
unfolding run_changes on_ready_state_change
waiting [] show h = refl
waiting (c ∷ changes) show (h, hs) =
    let e : (c.ready_state == 4) ≡ false = ground arith in rw e (waiting changes show hs)

last-change :
    (before : List Change) (c : Change) (show : ShowResults)
    → c.ready_state ≡ 4
    → run_changes (before ++ c ∷ []) show ≡ show_response c.status c.response_text
unfolding run_changes on_ready_state_change
last-change before c show four = run_changes-append before (c ∷ []) show ∙ rw four

-- While no change reports the state 4, the element stays as it is. The change that does decides
-- alone what is shown: a success exactly if the status is 200 and the text begins with a positive
-- number, and an error otherwise.
pub run_changes-class :
    (before : List Change) (c : Change) (show : ShowResults)
    → All (λ b. b.ready_state ≢ 4) before
    → c.ready_state ≡ 4
    → (run_changes before show ≡ show)
      × (((run_changes (before ++ c ∷ []) show).class_name ≡ codes "sucesso") ↔ IsDone c)
      × (¬ IsDone c → (run_changes (before ++ c ∷ []) show).class_name ≡ codes "textoErro")
run_changes-class before c show early four = rw (last-change before c show four) (
  waiting before show early,
  (show_response-class c, IsDone-class c),
  λ undone. elim (class-cases c) [ inl e ↦ absurd (undone (show_response-class c e)) | inr e ↦ e ],
)
