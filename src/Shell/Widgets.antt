-- ===== src/Shell/Widgets.antt =====
-- What scripts/admin/admin.js, scripts/statistics.js, scripts/autosuggest.js, scripts/tagCloud.js,
-- scripts/tabsNavigator.js and scripts/formDate.js ask of the libraries when a page is loaded: the
-- elements by their selectors, with the options.
use Prim.Native.Nat.{ℕ}
use mathlib.Core.Bool.{Bool, true, false}
use mathlib.Core.Option.{Option, none, some}
use mathlib.Core.List.{List, [], ◌∷◌}
use inroa.Base.{Text, codes}

-- A button of jQuery UI; its text is shown unless the option says otherwise.
pub record Button : Type 0 where
  pub selector : Text
  pub has_text : Bool
  pub icon : Option Text

abbrev pub with_icon : Text → Text → Button
with_icon selector icon = record { selector = selector; has_text = true; icon = some icon }

-- scripts/admin/admin.js
abbrev pub admin_buttons : List Button
admin_buttons =
    with_icon (codes "#recalculo") (codes "ui-icon-arrowrefresh-1-n")
    ∷ with_icon (codes "#alterarSenha") (codes "ui-icon-key")
    ∷ with_icon (codes "#alterarBase") (codes "ui-icon-suitcase")
    ∷ with_icon (codes "#sair") (codes "ui-icon-close")
    ∷ []

-- scripts/statistics.js
abbrev pub statistics_buttons : List Button
statistics_buttons =
    record { selector = codes ".btSemTexto"; has_text = false; icon = none }
    ∷ with_icon (codes ".deleteTag") (codes "ui-icon-trash")
    ∷ []

-- scripts/tagCloud.js: sizes in points, and colours.
pub record TagCloud : Type 0 where
  pub selector : Text
  pub size_start : ℕ
  pub size_end : ℕ
  pub unit : Text
  pub color_start : Text
  pub color_end : Text

abbrev pub tag_cloud : TagCloud
tag_cloud = record {
  selector = codes "#tagcloud a";
  size_start = 7;
  size_end = 19;
  unit = codes "pt";
  color_start = codes "#858585";
  color_end = codes "#025070";
}

-- scripts/autosuggest.js: where the suggestions come from. The library puts the query in the place of
-- `%QUERY`.
pub record Suggestions : Type 0 where
  pub remote : Text
  pub min_length : ℕ
  pub highlight : Bool
  pub hint : Bool

abbrev pub auto_suggest : Suggestions
auto_suggest = record {
  remote = codes "./suggestion?query=%QUERY";
  min_length = 2;
  highlight = true;
  hint = false;
}

-- scripts/tabsNavigator.js and scripts/formDate.js: the elements with tabs, and those with a mask.
abbrev pub tabs : Text
tabs = codes "#tabs"

abbrev pub data_mask : Text × Text
data_mask = (codes ".dataMask", codes "99/99/9999")
