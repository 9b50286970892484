-- ===== src/Dialogs.antt =====
-- scripts/admin/admin.js: the dialog that asks before something is deleted, the request, and the dialog
-- for errors. jQuery's part is what it documents: `statusCode` and `error` are called by the answer's
-- status, and a dialog is closed by its buttons or by its own cross.
pub mod Answers
pub mod Events
pub mod Phases
mod Tests
use Prim.Native.Nat.{ℕ, ◌+◌}
use mathlib.Core.Bool.{Bool, true, false, not, ◌&&◌}
use mathlib.Core.Option.{Option, none, some}
use mathlib.Core.List.{List, [], ◌∷◌, ◌++◌}
use inroa.Base.{Text, codes, ◌==◌, if◌then◌else◌}

-- What is in the dialog that asks: the question with the text of `#msgApagar`, or the notice that took
-- its place, after which there is no `#msgApagar` any more.
pub data Content : Type 0 where
  question : Text → Content
  notice : Text → Content

-- The page. `url` is what the link left with the dialog, `posts` are the requests that were sent, and
-- `reloads` counts how often the page was told to load again.
pub record Page : Type 0 where
  pub is_confirm_open : Bool
  pub has_buttons : Bool
  pub content : Content
  pub url : Option Text
  pub posts : List (Option Text)
  pub is_error_open : Bool
  pub text_status : Text
  pub error_thrown : Text
  pub reloads : ℕ

-- An answer to the request, or its failure.
pub record Answer : Type 0 where
  pub status : ℕ
  pub is_error : Bool
  pub text_status : Text
  pub error_thrown : Text

abbrev pub set_text : Text → Content → Content
set_text title (question msg) = question title
set_text title (notice html) = notice html

-- A click on `.delete_link`: its address is left with the dialog, and its title is what is asked.
unfoldable pub delete_link : Text → Text → Page → Page
delete_link href title page = record page {
  url = some href;
  is_confirm_open = true;
  content = set_text title page.content;
}

abbrev pub deletando : Text → Text
deletando root_url =
    codes "<div class='margin-top'><img src='"
    ++ (root_url
        ++ codes
            "/imagens/ajax-loader.gif' border='0' alt='Atualizando' align='middle'> Deletando... Por favor aguarde.<p class='textoErro center'>Esta operação pode levar alguns minutos.</p><div>")

-- The button `Apagar`
unfoldable pub apagar : Text → Page → Page
apagar root_url page = record page {
  posts = page.posts ++ page.url ∷ [];
  has_buttons = false;
  content = notice (deletando root_url);
}

-- The button `Cancelar`, and the cross of the dialog
abbrev pub close_confirm : Page → Page
close_confirm page = record page { is_confirm_open = false }

-- The end of a deletion that failed.
abbrev pub show_error : Text → Text → Page → Page
show_error text_status error_thrown page = record page {
  is_confirm_open = false;
  text_status = text_status;
  error_thrown = error_thrown;
  is_error_open = true;
}

-- `error`
abbrev pub on_error : Answer → Page → Page
on_error answer page =
    if answer.status == 403 then page else show_error answer.text_status answer.error_thrown page

-- `statusCode`
abbrev pub on_status : Answer → Page → Page
on_status answer page =
    if answer.status == 200
    then record page { is_confirm_open = false; reloads = page.reloads + 1 }
    else if answer.status == 403
    then show_error answer.text_status (codes "Não é possível apagar o último usuário do sistema")
        page
    else page

unfoldable pub on_answer : Answer → Page → Page
on_answer answer page = on_status answer (if answer.is_error then on_error answer page else page)

-- The button `Ok` of the dialog for errors, and its cross
abbrev pub ok : Page → Page
ok page = record page { is_error_open = false; reloads = page.reloads + 1 }

abbrev pub close_error : Page → Page
close_error page = record page { is_error_open = false }
