-- ===== src/Tags.antt =====
-- scripts/statistics.js: the links that delete one term or all terms of the tag cloud. The variable
-- `_this`, the link of the last click, is shared by all requests. `unescape` is an argument.
pub mod Answers
pub mod Events
mod Tests
use Prim.Native.Nat.{ℕ}
use mathlib.Core.Bool.{Bool, true, false}
use mathlib.Core.Option.{Option, none, some}
use mathlib.Core.List.{List, [], ◌∷◌, ◌++◌, map}
use inroa.Base.{Text, codes, ◌==◌, if◌then◌else◌, text_eq, any, keep, not}

pub record Link : Type 0 where
  pub node : ℕ
  pub href : Text
  pub label : Text

-- A line of the table, with the link in it.
pub record Line : Type 0 where
  pub row : ℕ
  pub link : Option Link

-- `lines` is the table, `links` are those beside it. `messages` are the classes that `#msgTagCloud`
-- got, and `posts` the links that were asked for.
pub record Page : Type 0 where
  pub lines : List Line
  pub links : List Link
  pub this : Option Link
  pub text_status : Text
  pub error_thrown : Text
  pub is_error_open : Bool
  pub classes : List Text
  pub msg_text : Text
  pub posts : List Text

abbrev pub is_node : ℕ → Link → Bool
is_node node link = link.node == node

abbrev pub holds : ℕ → Line → Bool
holds node line = elim line.link [ none ↦ false | some link ↦ is_node node link ]

-- `btClick.parents("tr").remove()`
abbrev pub rm_line_tag : ℕ → Page → Page
rm_line_tag node page = record page { lines = keep (λ line. not (holds node line)) page.lines }

abbrev pub drop_link : ℕ → Line → Line
drop_link node line = if holds node line then record line { link = none } else line

-- `btClick.siblings("table").remove(); btClick.remove()`: only a link beside the table has it as a
-- sibling.
abbrev pub rm_all_tags : ℕ → Page → Page
rm_all_tags node page = record page {
  lines = if any (is_node node) page.links then [] else map (drop_link node) page.lines;
  links = keep (λ link. not (is_node node link)) page.links;
}

-- The click: the link's address is posted.
unfoldable pub click : Link → Page → Page
click link page = record page { this = some link; posts = page.posts ++ link.href ∷ [] }

abbrev pub falhou : Text
falhou = codes "Não foi possível executar a operação!"

-- The function that is called when the request fails.
unfoldable pub on_error : Page → Page
on_error page = record page { error_thrown = falhou; is_error_open = true }

-- The answer; a member that it does not have is `none`.
pub record Resultado : Type 0 where
  pub type : Option Text
  pub message : Option Text

-- `unescape(resultado["message"])`
abbrev pub message_of : Resultado → Text
message_of resultado = elim resultado.message [ none ↦ codes "undefined" | some m ↦ m ]

-- What is deleted, by the text of the link; a link has been clicked before an answer comes.
abbrev pub rm : Option Link → Page → Page
rm none page = page
rm (some link) page =
    if text_eq link.label (codes "deletar")
    then rm_line_tag link.node page
    else rm_all_tags link.node page

module _ (unescape : Text → Text) where
  -- An answer whose member `type` is a text that is not empty.
  abbrev pub on_type : Text → Text → Page → Page
  on_type type message page =
      if text_eq (unescape type) (codes "error")
      then record page {
        text_status = unescape type;
        error_thrown = unescape message;
        is_error_open = true;
      }
      else record (rm page.this page) {
        classes = page.classes ++ unescape type ∷ [];
        msg_text = unescape message;
      }

  abbrev pub answer : Option Text → Text → Page → Page
  answer none message page = on_error page
  answer (some []) message page = on_error page
  answer (some (c ∷ type)) message page = on_type (c ∷ type) message page

  -- The function that is called with the answer.
  unfoldable pub on_resultado : Resultado → Page → Page
  unfolding on_error
  on_resultado resultado page = answer resultado.type (message_of resultado) page
