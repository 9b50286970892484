-- ===== src/Mapping/Tests/Editing.antt =====
-- The choice of another attribute, which is given up.
use mathlib.Core.Path.{◌≡◌, refl}
use mathlib.Core.List.{List, [], ◌∷◌, ◌++◌, map}
use native.Mathlib.Omega.{arith}
use inroa.Base.{codes}
use inroa.Page.{Element, find_id}
use inroa.Page.Elements.{IsOnly}
use inroa.Page.Editing.{IsPlain}
use inroa.Update.{Change, open_ajax, xml_http_request}
use inroa.Mapping.{by_id}
use inroa.Mapping.Events.{exibe_select_event, cancelar_event, change_event, run_events}
use inroa.Mapping.Editing.{closed, closed_with, exibe_select-cancelar}
use inroa.Mapping.Tests.{all_transports, no_fields, div, start}

abbrev result : Element
result = div 1 (codes "result0")

result-IsPlain : IsPlain no_fields result
result-IsPlain = record { fields = refl; on_click = refl }

result-IsOnly : IsOnly result start.page
result-IsOnly = (λ h. absurd (omega arith), (λ h. refl, (λ h. absurd (omega arith), tt)))

abbrev changes : List Change
changes =
    record { ready_state = 1; status = 0; response_text = [] }
    ∷ record { ready_state = 4; status = 200; response_text = codes "<select>" }
    ∷ []

-- The old HTML comes back cut, and whole.
exibe_select-cancelar_example :
    (run_events all_transports no_fields
        (exibe_select_event (codes "result0") (codes "7") 10
          ∷ (map (change_event 0) changes ++ cancelar_event (codes "result0") (codes "res") ∷ []))
        start
      ≡ closed_with all_transports no_fields
          (codes "result0")
          (codes "7")
          10
          result
          start
          (codes "res"))
    × (run_events all_transports no_fields
          (exibe_select_event (codes "result0") (codes "7") 10
            ∷ (map (change_event 0) changes
                ++ cancelar_event (codes "result0") (codes "result0") ∷ []))
          start
        ≡ closed all_transports no_fields (codes "result0") (codes "7") 10 result start)
unfolding open_ajax by_id find_id
exibe_select-cancelar_example =
    exibe_select-cancelar all_transports no_fields (codes "result0") (codes "7") 10 result start
      xml_http_request changes (codes "res") refl refl result-IsPlain result-IsOnly
