-- ===== src/Standard/Tests.antt =====
-- A standard with three attributes, edited in several ways.
mod Unsaved
use Prim.Native.Nat.{ℕ}
use mathlib.Core.Path.{◌≡◌, refl}
use mathlib.Core.Bool.{Bool, true, false}
use mathlib.Core.Option.{none, some}
use mathlib.Core.List.{List, [], ◌∷◌, ◌++◌, map}
use inroa.Base.{Text, codes, pos, decrement, int_text, decimal}
use inroa.Page.{find_id, Element, all_elements}
use inroa.Page.Editing.{shown, IsPlain}
use inroa.Update.{open_ajax, Transport, xml_http_request, Change}
use inroa.Standard.{State, Request, processo_ajax, on_ready_state_change, remove_linha}
use inroa.Standard.Handlers.{cancelar, adiciona_atributo, salvar_novo_atributo}
use inroa.Standard.Events.{
  Event, exibe_text_event, cancelar_event, confirma_event, change_event, adiciona_event, type_event,
  remove_event, salvar_novo_event, run_events,
}
use inroa.Standard.Count.{SameOffset}
use inroa.Standard.Count.Steps.{run_events-SameOffset, run_events-Edits}
use inroa.Standard.Table.{Edits, view}
use inroa.Standard.Deletion.{deletion, answer, without_row, confirma_exclusao-answer}
use inroa.Standard.Editing.{closed, closed_with, exibe_text-cancelar}
use inroa.Standard.Collision.{adiciona_atributo-collision}
use inroa.Page.Elements.{IsOnly}
use native.Mathlib.Omega.{arith}
use inroa.Standard.Deletion.Race.{confirma_exclusao-race}

abbrev pub all_transports : Transport → Bool
all_transports _ = true

abbrev pub no_fields : Text → List (Text × Text)
no_fields _ = []

abbrev pub cell : ℕ → Text → Element
cell node id = record { node = node; id = id; inner_html = id; fields = []; on_click = false }

abbrev pub msgerro : Element
msgerro = cell 0 (codes "msgerro")

abbrev pub start : State
start = record {
  botao = none;
  padrao_met = codes "0";
  linha_js = pos 2;
  input_novo_atributo = [];
  id_div_atributo = [];
  linha_apagar = 0;
  is_disabled = λ _. false;
  page = record {
    next_node = 4;
    elements = msgerro ∷ [];
    table_id = codes "tabela";
    rows =
        (cell 1 (codes "atributo0") ∷ [])
        ∷ (cell 2 (codes "atributo1") ∷ [])
        ∷ (cell 3 (codes "atributo2") ∷ [])
        ∷ [];
  };
  requests = [];
}

abbrev ids : State → List (List Text)
ids s = map (map Element.id) s.page.rows

-- A new attribute that is typed in and saved.
abbrev new_attribute : List Event
new_attribute =
    adiciona_event (codes "5")
    ∷ type_event 4 (codes "inputNovo3") (codes "titulo")
    ∷ salvar_novo_event 5
    ∷ change_event 0 (record { ready_state = 4; status = 200; response_text = codes "titulo" })
    ∷ []

new_attribute_runs :
    (map Request.target (run_events all_transports no_fields new_attribute start).requests
      ≡ some 4 ∷ [])
    × (ids (run_events all_transports no_fields new_attribute start)
        ≡ (codes "atributo0" ∷ [])
          ∷ (codes "atributo1" ∷ [])
          ∷ (codes "atributo2" ∷ [])
          ∷ (codes "result3" ∷ codes "result3D" ∷ [])
          ∷ [])
unfolding run_events adiciona_atributo salvar_novo_atributo processo_ajax on_ready_state_change
    remove_linha cancelar
new_attribute_runs = (refl, refl)

run_events-Edits_example :
    Edits
      (view start)
      (view (run_events all_transports no_fields (new_attribute ++ remove_event 1 ∷ []) start))
run_events-Edits_example =
    run_events-Edits all_transports no_fields (new_attribute ++ remove_event 1 ∷ []) start
      (tt, (tt, (tt, (tt, (tt, tt))))) refl

confirma_exclusao-answer_example :
    run_events all_transports no_fields
      (confirma_event true (codes "8") (codes "msgerro") 1
        ∷ change_event 0 (answer (codes "ok"))
        ∷ [])
      start
    ≡ record start {
      requests = deletion (codes "8") (codes "msgerro") 0 ∷ [];
      linha_apagar = 1;
      page = without_row 1 (shown no_fields 0 (codes "ok") start.page);
      linha_js = decrement (pos 2);
    }
unfolding open_ajax find_id
confirma_exclusao-answer_example =
    confirma_exclusao-answer all_transports no_fields xml_http_request (codes "8") (codes "msgerro")
      (codes "ok") 1 msgerro start refl refl refl refl

abbrev two_deletions : List Event
two_deletions =
    confirma_event true (codes "8") (codes "msgerro") 0
    ∷ confirma_event true (codes "9") (codes "msgerro") 1
    ∷ []

confirma_exclusao-race_example :
    ((run_events all_transports no_fields
        (two_deletions
          ++ (change_event 0 (answer (codes "a")) ∷ change_event 1 (answer (codes "b")) ∷ []))
        start).page
      ≡ without_row 1 (
          shown no_fields 0 (codes "b") (without_row 1 (shown no_fields 0 (codes "a") start.page))))
    × ((run_events all_transports no_fields
          (two_deletions
            ++ (change_event 1 (answer (codes "a")) ∷ change_event 0 (answer (codes "b")) ∷ []))
          start).page
        ≡ without_row 1 (
            shown no_fields 0
              (codes "b")
              (without_row 1 (shown no_fields 0 (codes "a") start.page))))
unfolding open_ajax find_id
confirma_exclusao-race_example =
    confirma_exclusao-race all_transports no_fields xml_http_request (codes "8") (codes "9")
      (codes "msgerro") (codes "a") (codes "b") 0 1 msgerro start refl refl refl refl

abbrev attribute : Element
attribute = cell 1 (codes "atributo0")

attribute-IsPlain : IsPlain no_fields attribute
attribute-IsPlain = record { fields = refl; on_click = refl }

attribute-IsOnly : IsOnly attribute start.page
attribute-IsOnly = (
  λ h. absurd (omega arith),
  (λ h. refl, (λ h. absurd (omega arith), (λ h. absurd (omega arith), tt))),
)

abbrev two_changes : List Change
two_changes =
    record { ready_state = 1; status = 0; response_text = [] }
    ∷ answer (codes "<input id='novo'>")
    ∷ []

-- The old HTML comes back cut, and whole.
exibe_text-cancelar_example :
    (run_events all_transports no_fields
        (exibe_text_event (codes "atributo0") (codes "5") (codes "nome") 9
          ∷ (map (change_event 0) two_changes
              ++ cancelar_event (codes "atributo0") (codes "res") ∷ []))
        start
      ≡ closed_with all_transports no_fields
          (codes "atributo0")
          (codes "5")
          (codes "nome")
          9
          attribute
          start
          (codes "res"))
    × (run_events all_transports no_fields
          (exibe_text_event (codes "atributo0") (codes "5") (codes "nome") 9
            ∷ (map (change_event 0) two_changes
                ++ cancelar_event (codes "atributo0") (codes "atributo0") ∷ []))
          start
        ≡ closed all_transports no_fields
            (codes "atributo0")
            (codes "5")
            (codes "nome")
            9
            attribute
            start)
unfolding open_ajax find_id
exibe_text-cancelar_example =
    exibe_text-cancelar all_transports no_fields (codes "atributo0") (codes "5") (codes "nome") 9
      attribute start xml_http_request two_changes (codes "res") refl refl attribute-IsPlain
      attribute-IsOnly

-- Two rows have been added.
abbrev two_added : State
two_added = record start {
  linha_js = pos 4;
  page = record {
    next_node = 6;
    elements = msgerro ∷ [];
    table_id = codes "tabela";
    rows =
        (attribute ∷ []) ∷ (cell 4 (codes "result3") ∷ []) ∷ (cell 5 (codes "result4") ∷ []) ∷ [];
  };
}

adiciona_atributo-collision_example :
    let after : State =
      run_events all_transports no_fields
        (remove_event 1 ∷ adiciona_event (codes "5") ∷ [])
        two_added in
    (after.id_div_atributo ≡ codes "result4")
    × (y : Element) × (find_id after.id_div_atributo (all_elements after.page) ≡ some y)
    × (y.node ≡ 5)
unfolding find_id int_text without_row decimal
adiciona_atributo-collision_example =
    adiciona_atributo-collision all_transports no_fields 1 (codes "5") (cell 5 (codes "result4"))
      two_added refl refl refl
