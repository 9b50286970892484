-- ===== src/Update/Tests.antt =====
-- An update of a repository, from the request to its last change.
use mathlib.Core.Path.{◌≡◌, refl}
use mathlib.Core.Logic.{◌↔◌}
use mathlib.Core.Bool.{Bool, true, false}
use mathlib.Core.Option.{none, some}
use mathlib.Core.List.{List, [], ◌∷◌, ◌++◌}
use native.Mathlib.Omega.{arith}
use inroa.Base.{codes, parse_int}
use inroa.Update.{
  Transport, xml_http_request, msxml2_xml_http, microsoft_xml_http, open_ajax, atualiza_rep_ajax,
  apaga_atualiza_rep_ajax, delete_and_update_sub_fed_ajax, atualiza_subfed_ajax, ShowResults,
  update_subnode_ajax, Change, run_changes, show_response, on_ready_state_change,
}
use inroa.Update.Outcome.{IsDone, run_changes-class}

abbrev only_old : Transport → Bool
only_old xml_http_request = false
only_old msxml2_xml_http = false
only_old microsoft_xml_http = true

open_ajax_runs : open_ajax only_old ≡ some microsoft_xml_http
unfolding open_ajax
open_ajax_runs = refl

link_runs :
    (atualiza_rep_ajax (codes "/feb/") (codes "7")
      ≡ codes "/feb/admin/repositories/7/update?apagar=false")
    × (apaga_atualiza_rep_ajax (codes "/feb/") (codes "7")
        ≡ codes "/feb/admin/repositories/7/update?apagar=true")
    × (atualiza_subfed_ajax (codes "/feb/") (codes "7")
        ≡ codes "/feb/admin/federations/7/update?apagar=false")
    × (delete_and_update_sub_fed_ajax (codes "/feb/") (codes "7")
        ≡ codes "/feb/admin/federations/7/update?apagar=true")
unfolding atualiza_rep_ajax apaga_atualiza_rep_ajax atualiza_subfed_ajax
    delete_and_update_sub_fed_ajax
link_runs = (refl, refl, refl, refl)

update_subnode_ajax_fails :
    (show : ShowResults) → update_subnode_ajax (λ _. false) [] (codes "/feb/") show ≡ none
unfolding update_subnode_ajax open_ajax
update_subnode_ajax_fails show = refl

abbrev before : ShowResults
before = record { inner_html = codes "7"; class_name = codes "hidden" }

abbrev early : List Change
early =
    record { ready_state = 2; status = 200; response_text = [] }
    ∷ record { ready_state = 3; status = 200; response_text = codes "4" }
    ∷ []

abbrev done : Change
done = record { ready_state = 4; status = 200; response_text = codes "42 documentos" }

run_changes-class_example :
    (run_changes early before ≡ before)
    × (((run_changes (early ++ done ∷ []) before).class_name ≡ codes "sucesso") ↔ IsDone done)
    × (¬ IsDone done → (run_changes (early ++ done ∷ []) before).class_name ≡ codes "textoErro")
run_changes-class_example =
    run_changes-class early done before (ground arith, (ground arith, tt)) refl

run_changes_runs :
    (run_changes (early ++ done ∷ []) before).inner_html ≡ codes "Atualizado com sucesso!"
unfolding run_changes on_ready_state_change show_response parse_int
run_changes_runs = refl
