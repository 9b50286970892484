-- ===== src/Metadata/Loading.antt =====
-- scripts/showMetadata.js: the request for the metadata of a document, and what its end does to the
-- page.
use Prim.Native.Nat.{ℕ}
use mathlib.Core.Bool.{Bool, true, false, ◌&&◌}
use mathlib.Core.List.{List, [], ◌∷◌, ◌++◌, map}
use inroa.Base.{Text, codes, ◌==◌}
use inroa.Metadata.{Nodes, build_list}

-- An element `li.well`: in how many others of the kind it stands, and whether it has its classes still.
pub record Well : Type 0 where
  pub depth : ℕ
  pub has_class : Bool

-- The page: the dialog that is shown while it loads, the content of `#obaaTree` and the elements of it,
-- the message in it and whether it is marked as an error, and the lines of the console.
pub record View : Type 0 where
  pub is_loading : Bool
  pub tree_html : Text
  pub wells : List Well
  pub message : Text
  pub is_error : Bool
  pub console : List Text

-- How the request ends.
pub data Outcome : Type 0 where
  success : Nodes → Outcome
  failure : Text → Text → Outcome

-- When the page is loaded.
abbrev pub on_load : View → View
on_load view = record view { is_loading = true }

-- The function given to `getJSON`. Which elements a browser finds in the HTML is an argument.
unfoldable pub on_data : (Text → List Well) → Nodes → View → View
on_data parse json view = record view {
  tree_html = build_list json;
  wells = parse (build_list json);
}

-- `fail`
unfoldable pub on_fail : Text → Text → View → View
on_fail text_status error view = record view {
  console =
      view.console ++ (codes "Request Failed: " ++ (text_status ++ (codes ", " ++ error))) ∷ [];
  is_error = true;
  message = codes "Ocorreu um erro ao carregar o documento. Tente novamente mais tarde. ";
}

-- `find` gives the elements that stand in another, and loses the class by which it found them.
abbrev pub remove_class : Well → Well
remove_class well = record well { has_class = well.has_class && (well.depth == 0) }

-- `done`
unfoldable pub on_done : View → View
on_done view = record view { wells = map remove_class view.wells; is_loading = false }

unfoldable pub on_outcome : (Text → List Well) → Outcome → View → View
unfolding on_data on_fail on_done
on_outcome parse (success json) view = on_done (on_data parse json view)
on_outcome parse (failure text_status error) view = on_fail text_status error view
