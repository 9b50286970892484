-- ===== src/Standard/Unsaved.antt =====
-- An attribute that is added while another one is not saved yet.
use Prim.Native.Nat.{ℕ, ◌≤◌}
use mathlib.Core.Path.{◌≡◌}
use mathlib.Core.Bool.{Bool}
use mathlib.Core.List.{List, [], ◌++◌}
use inroa.Base.{Text, codes, int_text, increment}
use inroa.Page.{
  Element, Page, all_elements, append_row, find_id, node_of, set_on_click, update_page,
}
use inroa.Page.Extended.{IsExtended}
use inroa.Update.{Transport}
use inroa.Standard.{Request, State, novo_atributo, link}
use inroa.Standard.Handlers.{new_row}
use inroa.Standard.Events.{Event, type_event}

-- Something that the user types in an element that came with a node or later.
abbrev pub IsTyped : ℕ → Event → Type 0
IsTyped node (type_event n id value) = node ≤ n
IsTyped node _ = ⊥

module _ (has : Transport → Bool) (fields_of : Text → List (Text × Text)) (id_padrao w : Text)
    (x : Element) (s : State) where
  abbrev linha : Text
  linha = int_text (increment s.linha_js)

  -- The state when the row has been added.
  abbrev added : State
  added = record s {
    linha_js = increment s.linha_js;
    page = update_page x.node set_on_click (append_row (new_row linha) s.page);
    id_div_atributo = codes "result" ++ linha;
    input_novo_atributo = codes "inputNovo" ++ linha;
    padrao_met = id_padrao;
  }

  -- What holds after the row was added.
  record IsUnsaved (u : State) : Type 0 where
    rest : u ≡ record added { page = u.page }
    extended : IsExtended s.page x u.page

  -- The request that saves the row, on a page.
  abbrev saving : Text → Page → Request
  saving novo page = record {
    target = node_of (find_id (codes "result" ++ linha) (all_elements page));
    id_div = codes "result" ++ linha;
    acao = novo_atributo;
    url = link novo_atributo (codes "result" ++ linha) novo [] id_padrao [];
  }
