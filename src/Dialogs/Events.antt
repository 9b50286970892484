-- ===== src/Dialogs/Events.antt =====
-- scripts/admin/admin.js: what the user can do, and the answers, in any order. Both dialogs are opened
-- as `modal`, so nothing behind an open one can be clicked, and a button that is hidden cannot either.
use mathlib.Core.Bool.{Bool, true, false, ◌&&◌, ◌||◌}
use mathlib.Core.Option.{Option}
use mathlib.Core.List.{List, [], ◌∷◌}
use inroa.Base.{Text, if◌then◌else◌}
use inroa.Dialogs.{Page, Answer, delete_link, apagar, close_confirm, on_answer, ok, close_error}

-- A click on a link with its address and title, on `Apagar`, on `Cancelar` or the cross of the first
-- dialog, on `Ok` or the cross of the dialog for errors, and an answer to a request.
pub data Event : Type 0 where
  link_event : Text → Text → Event
  apagar_event close_event ok_event close_error_event : Event
  answer_event : Answer → Event

-- An answer comes only to a request that was sent.
abbrev pub is_any : List (Option Text) → Bool
is_any [] = false
is_any (post ∷ posts) = true

abbrev pub step : Text → Event → Page → Page
step root_url (link_event href title) page =
    if page.is_confirm_open || page.is_error_open then page else delete_link href title page
step root_url apagar_event page =
    if page.is_confirm_open && page.has_buttons then apagar root_url page else page
step root_url close_event page = if page.is_confirm_open then close_confirm page else page
step root_url ok_event page = if page.is_error_open then ok page else page
step root_url close_error_event page = if page.is_error_open then close_error page else page
step root_url (answer_event answer) page = if is_any page.posts then on_answer answer page else page

unfoldable pub run_events : Text → List Event → Page → Page
run_events root_url [] page = page
run_events root_url (event ∷ events) page = run_events root_url events (step root_url event page)
