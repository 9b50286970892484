-- ===== src/Tags/Tests.antt =====
-- Two terms in the tag cloud, and the link that deletes all.
use Prim.Native.Nat.{ℕ}
use mathlib.Core.Path.{◌≡◌, refl}
use mathlib.Core.Bool.{true, false}
use mathlib.Core.Option.{none, some}
use mathlib.Core.List.{[], ◌∷◌}
use inroa.Base.{Text, codes, keep}
use inroa.Tags.{Link, Page, click, Resultado, on_resultado}
use inroa.Tags.Answers.{IsSuccess, on_resultado-race}
use inroa.Tags.Events.{
  click_event, resultado_event, error_event, is_untouched, run_events, run_events-untouched,
}

abbrev same : Text → Text
same s = s

abbrev link : ℕ → Link
link n = record { node = n; href = codes "/deletetag?tag="; label = codes "deletar" }

abbrev all_terms : Link
all_terms = record {
  node = 9;
  href = codes "/deletealltags";
  label = codes "Apagar todos os termos";
}

abbrev page : Page
page = record {
  lines = record { row = 1; link = some (link 1) } ∷ record { row = 2; link = some (link 2) } ∷ [];
  links = all_terms ∷ [];
  this = none;
  text_status = [];
  error_thrown = [];
  is_error_open = false;
  classes = [];
  msg_text = [];
  posts = [];
}

abbrev success : Resultado
success = record { type = some (codes "success"); message = some (codes "Apagado") }

abbrev error : Resultado
error = record { type = some (codes "error"); message = some (codes "Sem conexão") }

success-IsSuccess : IsSuccess same success
success-IsSuccess = record { first = b's'; rest = codes "uccess"; type = refl; no_error = refl }

on_resultado-race_example :
    (on_resultado same success
      (on_resultado same success (click (link 2) (click (link 1) page)))).lines
    ≡ record { row = 1; link = some (link 1) } ∷ []
on_resultado-race_example =
    on_resultado-race same (link 1) (link 2) success success page success-IsSuccess
      success-IsSuccess refl

-- The first term's link is clicked twice, and two answers tell of a success and of an error: the
-- second term's line stays.
run_events-untouched_example :
    keep
      (is_untouched (1 ∷ []))
      (run_events same
        (click_event (link 1)
          ∷ resultado_event success
          ∷ click_event (link 1)
          ∷ resultado_event error
          ∷ error_event
          ∷ [])
        page).lines
    ≡ record { row = 2; link = some (link 2) } ∷ []
run_events-untouched_example =
    run_events-untouched same (1 ∷ [])
      (click_event (link 1)
        ∷ resultado_event success
        ∷ click_event (link 1)
        ∷ resultado_event error
        ∷ error_event
        ∷ [])
      page ((refl, refl), (tt, ((refl, refl), (tt, (tt, tt))))) refl

-- An error leaves the terms as they are and opens the dialog.
on_resultado_runs :
    ((on_resultado same error page).lines ≡ page.lines)
    × ((on_resultado same error page).is_error_open ≡ true)
    × ((on_resultado same (record { type = none; message = none }) page).is_error_open ≡ true)
unfolding on_resultado
on_resultado_runs = (refl, refl, refl)
