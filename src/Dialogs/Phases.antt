-- ===== src/Dialogs/Phases.antt =====
-- A deletion, from the link to the request.
use Prim.Native.Nat.{ℕ, ◌+◌}
use mathlib.Core.Path.{◌≡◌, refl, ap, ◌∙◌}
use mathlib.Core.Bool.{Bool, true, false, ◌&&◌, ◌||◌}
use mathlib.Core.Option.{Option, some}
use mathlib.Core.List.{List, [], ◌∷◌, ◌++◌}
use native.Mathlib.Omega.{arith}
use inroa.Base.{Text, if◌then◌else◌}
use inroa.Base.Reach.{Reach, here, next, Reach-trans}
use inroa.Dialogs.{Page, Answer, question, set_text, close_confirm, delete_link, apagar, on_answer}
use inroa.Dialogs.Events.{
  Event, link_event, apagar_event, close_event, ok_event, close_error_event, answer_event, is_any,
  step, run_events,
}

-- Nothing is asked, the user is asked for a link with its address and title, or the request to an
-- address was sent.
pub data Phase : Type 0 where
  idle : Phase
  asking : Text → Text → Phase
  sent : Text → Phase

-- The link that was asked for is the one that the request goes to, and there is no second request.
pub data Step : Phase → Phase → Type 0 where
  ask : (href title : Text) → Step idle (asking href title)
  give_up : (href title : Text) → Step (asking href title) idle
  confirm : (href title : Text) → Step (asking href title) (sent href)

-- What the page shows and has sent.
abbrev pub Shows : Page → Phase → Type 0
Shows page idle =
    (page.has_buttons ≡ true)
    × (page.posts ≡ [])
    × (page.is_confirm_open ≡ false)
    × (msg : Text) × (page.content ≡ question msg)
Shows page (asking href title) =
    (page.has_buttons ≡ true)
    × (page.posts ≡ [])
    × (page.is_confirm_open ≡ true)
    × (page.url ≡ some href)
    × (page.content ≡ question title)
Shows page (sent href) = (page.has_buttons ≡ false) × (page.posts ≡ some href ∷ [])

-- The phases that a page may get to.
abbrev Gets : Page → Phase → Type 0
Gets page p = (q : Phase) × Reach Step p q × Shows page q

if-Gets :
    (b : Bool) (x y : Page) (p : Phase)
    → (b ≡ true → Gets x p)
    → (b ≡ false → Gets y p)
    → Gets (if b then x else y) p
if-Gets true x y p h k = h refl
if-Gets false x y p h k = k refl

-- An answer changes neither the buttons nor the requests.
on_answer-kept :
    (answer : Answer) (page : Page)
    → ((on_answer answer page).has_buttons ≡ page.has_buttons)
      × ((on_answer answer page).posts ≡ page.posts)
unfolding on_answer
on_answer-kept answer page = ground arith

link-Gets :
    (href title : Text) (page : Page) (p : Phase)
    → Shows page p
    → Gets
        (if page.is_confirm_open || page.is_error_open then page else delete_link href title page)
        p
unfolding delete_link
link-Gets href title page idle (buttons, posts, closed, msg, content) =
    if-Gets (page.is_confirm_open || page.is_error_open) _ _ idle
      (λ _. (idle, here, (buttons, posts, closed, msg, content)))
      λ _. (
        asking href title,
        next (ask href title) here,
        (buttons, posts, refl, refl, ap (set_text title) content),
      )
link-Gets href title page (asking h t) (buttons, posts, shown, url, content) =
    if-Gets (page.is_confirm_open || page.is_error_open) _ _ (asking h t)
      (λ _. (asking h t, here, (buttons, posts, shown, url, content))) λ e. absurd (ground arith)
link-Gets href title page (sent h) shows =
    if-Gets (page.is_confirm_open || page.is_error_open) _ _ (sent h) (λ _. (sent h, here, shows))
      λ _. (sent h, here, shows)

apagar-Gets :
    (root_url : Text) (page : Page) (p : Phase)
    → Shows page p
    → Gets (if page.is_confirm_open && page.has_buttons then apagar root_url page else page) p
unfolding apagar
apagar-Gets root_url page idle (buttons, posts, closed, msg, content) =
    if-Gets (page.is_confirm_open && page.has_buttons) _ _ idle (λ e. absurd (ground arith))
      λ _. (idle, here, (buttons, posts, closed, msg, content))
apagar-Gets root_url page (asking h t) (buttons, posts, shown, url, content) =
    if-Gets (page.is_confirm_open && page.has_buttons) _ _ (asking h t)
      (λ _. (
        sent h,
        next (confirm h t) here,
        (
          refl,
          ap (λ (l : List (Option Text)). l ++ page.url ∷ []) posts
              ∙ ap (λ (u : Option Text). u ∷ []) url,
        ),
      ))
      λ _. (asking h t, here, (buttons, posts, shown, url, content))
apagar-Gets root_url page (sent h) (hidden, posts) =
    if-Gets (page.is_confirm_open && page.has_buttons) _ _ (sent h) (λ e. absurd (ground arith))
      λ _. (sent h, here, (hidden, posts))

close-Gets :
    (page : Page) (p : Phase)
    → Shows page p
    → Gets (if page.is_confirm_open then close_confirm page else page) p
close-Gets page idle shows =
    if-Gets page.is_confirm_open _ _ idle
      (λ _. (idle, here, (shows.0, shows.1, refl, shows.3, shows.4))) λ _. (idle, here, shows)
close-Gets page (asking h t) (buttons, posts, shown, url, content) =
    if-Gets page.is_confirm_open _ _ (asking h t)
      (λ _. (idle, next (give_up h t) here, (buttons, posts, refl, t, content)))
      λ _. (asking h t, here, (buttons, posts, shown, url, content))
close-Gets page (sent h) shows =
    if-Gets page.is_confirm_open _ _ (sent h) (λ _. (sent h, here, shows))
      λ _. (sent h, here, shows)

error-Gets :
    (page : Page) (n : ℕ) (p : Phase)
    → Shows page p
    → Gets
        (if page.is_error_open then record page { is_error_open = false; reloads = n } else page)
        p
error-Gets page n p shows =
    if-Gets page.is_error_open _ _ p (λ _. (p, here, kept p shows)) λ _. (p, here, shows)
  where
    kept : (p : Phase) → Shows page p → Shows (record page { is_error_open = false; reloads = n }) p
    kept idle h = h
    kept (asking href title) h = h
    kept (sent href) h = h

answer-Gets :
    (answer : Answer) (page : Page) (p : Phase)
    → Shows page p
    → Gets (if is_any page.posts then on_answer answer page else page) p
answer-Gets answer page (sent h) (hidden, posts) =
    let kept = on_answer-kept answer page in
    if-Gets (is_any page.posts) _ _ (sent h)
      (λ _. (sent h, here, (kept.0 ∙ hidden, kept.1 ∙ posts))) λ _. (sent h, here, (hidden, posts))
answer-Gets answer page idle shows =
    let none_sent : is_any page.posts ≡ false = ap is_any shows.1 in
    if-Gets (is_any page.posts) _ _ idle (λ e. cc) λ _. (idle, here, shows)
answer-Gets answer page (asking h t) shows =
    let none_sent : is_any page.posts ≡ false = ap is_any shows.1 in
    if-Gets (is_any page.posts) _ _ (asking h t) (λ e. cc) λ _. (asking h t, here, shows)

step-Gets :
    (root_url : Text) (event : Event) (page : Page) (p : Phase)
    → Shows page p
    → Gets (step root_url event page) p
step-Gets root_url (link_event href title) page p shows = link-Gets href title page p shows
step-Gets root_url apagar_event page p shows = apagar-Gets root_url page p shows
step-Gets root_url close_event page p shows = close-Gets page p shows
step-Gets root_url ok_event page p shows = error-Gets page (page.reloads + 1) p shows
step-Gets root_url close_error_event page p shows = error-Gets page page.reloads p shows
step-Gets root_url (answer_event answer) page p shows = answer-Gets answer page p shows

-- From a page that shows one of the phases, whatever the user does and whatever the answers are, in
-- whatever order: a request is sent only after the user was asked for the link that it goes to, with
-- the title of this link, and no second one is sent.
pub run_events-Shows :
    (root_url : Text) (events : List Event) (page : Page) (p : Phase)
    → Shows page p
    → (q : Phase) × Reach Step p q × Shows (run_events root_url events page) q
unfolding run_events
run_events-Shows root_url [] page p shows = (p, here, shows)
run_events-Shows root_url (event ∷ events) page p shows =
    let (q, steps, after) = step-Gets root_url event page p shows in
    let (r, more, last) = run_events-Shows root_url events (step root_url event page) q after in
    (r, Reach-trans steps more, last)
