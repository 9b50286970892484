-- ===== src/Standard/Tests/Unsaved.antt =====
-- A standard with an attribute that is not saved yet, to which another one is added.
use mathlib.Core.Bool.{false}
use mathlib.Core.List.{List, [], ◌∷◌}
use inroa.Base.{codes}
use inroa.Page.{Element}
use inroa.Standard.{State}
use inroa.Standard.Handlers.{first_html}
use inroa.Standard.Events.{Event, adiciona_event, type_event, run_events}
use inroa.Standard.Tests.{all_transports, no_fields, cell, start}

abbrev link_cell : Element
link_cell = record (cell 3 (codes "result2D")) { fields = (codes "salvar", []) ∷ [] }

abbrev one_unsaved : State
one_unsaved = record start {
  page = record start.page { rows = (cell 2 (codes "result2") ∷ link_cell ∷ []) ∷ [] };
}

abbrev typed : List Event
typed = type_event 4 (codes "inputNovo3") (codes "ano") ∷ []

abbrev both : State
both = run_events all_transports no_fields (adiciona_event (codes "5") ∷ typed) one_unsaved

abbrev input_cell : Element
input_cell = record {
  node = 4;
  id = codes "result3";
  inner_html = first_html (codes "3");
  fields = (codes "inputNovo3", codes "ano") ∷ [];
  on_click = false;
}
