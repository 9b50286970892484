-- ===== src/Dialogs/Tests.antt =====
-- A user who cannot be deleted.
use mathlib.Core.Path.{◌≡◌, refl}
use mathlib.Core.Bool.{true, false}
use mathlib.Core.Option.{none}
use mathlib.Core.List.{List, [], ◌∷◌}
use native.Mathlib.Omega.{arith}
use inroa.Base.{codes}
use inroa.Dialogs.{
  Page, Answer, question, notice, delete_link, apagar, deletando, on_answer, close_error,
}
use inroa.Base.Reach.{Reach}
use inroa.Dialogs.Events.{
  Event, link_event, apagar_event, answer_event, close_error_event, run_events,
}
use inroa.Dialogs.Phases.{Phase, idle, Step, Shows, run_events-Shows}
use inroa.Dialogs.Answers.{IsHttp, delete_link-close_error}

abbrev page : Page
page = record {
  is_confirm_open = false;
  has_buttons = true;
  content = question [];
  url = none;
  posts = [];
  is_error_open = false;
  text_status = [];
  error_thrown = [];
  reloads = 0;
}

abbrev denied : Answer
denied = record {
  status = 403;
  is_error = true;
  text_status = codes "error";
  error_thrown = codes "Forbidden";
}

denied-IsHttp : IsHttp denied
denied-IsHttp = (λ h. absurd (omega arith), λ h. refl)

delete_link-close_error_example :
    let after : Page =
      delete_link
        (codes "/users/2")
        (codes "apagar o usuário?")
        (close_error (on_answer denied (apagar (codes "/feb/") page))) in
    (after.is_confirm_open ≡ true)
    × (after.has_buttons ≡ false)
    × (after.content ≡ notice (deletando (codes "/feb/")))
    × (after.reloads ≡ page.reloads)
delete_link-close_error_example =
    delete_link-close_error (codes "/feb/") (codes "/users/2") (codes "apagar o usuário?") denied
      page denied-IsHttp refl

-- A deletion is confirmed and denied, the dialog for errors is closed, and the link is clicked again.
abbrev events : List Event
events =
    link_event (codes "/users/2") (codes "apagar o usuário?")
    ∷ apagar_event
    ∷ answer_event denied
    ∷ close_error_event
    ∷ link_event (codes "/users/3") (codes "apagar o usuário?")
    ∷ apagar_event
    ∷ []

run_events-Shows_example :
    (q : Phase) × Reach Step idle q × Shows (run_events (codes "/feb/") events page) q
run_events-Shows_example =
    run_events-Shows (codes "/feb/") events page idle (refl, refl, refl, [], refl)
