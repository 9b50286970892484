-- ===== src/Oai/Tests.antt =====
-- Links that are typed, checked and answered.
use mathlib.Core.Path.{◌≡◌, refl}
use mathlib.Core.Bool.{true, false}
use mathlib.Core.Option.{none, some}
use mathlib.Core.List.{[], ◌∷◌}
use inroa.Base.{Text, codes, starts_with_http, trim_start}
use inroa.Oai.{Form, type_url, blur, resultado_event, verifica_link, step, run_events}
use inroa.Oai.Verdict.{IsSettled, run_events-IsSettled, blur-asks, run_events-stale}

abbrev start : Form
start = record {
  url = [];
  federation = none;
  is_red = false;
  is_green = false;
  resultado = [];
  is_texto_erro = false;
  is_submit_disabled = false;
  msg_error = [];
  links = [];
}

abbrev feb : Text
feb = codes "/feb/"

abbrev right : Text
right = codes "http://a.br/oai"

abbrev wrong : Text
wrong = codes "https://a.br/x"

start-IsSettled : IsSettled start
start-IsSettled = record { one_border = refl; red = λ h. cc; green = λ h. cc }

run_events-IsSettled_example : IsSettled (
    run_events feb trim_start
      (type_url right ∷ blur ∷ resultado_event 0 true ∷ type_url (codes "ftp") ∷ blur ∷ [])
      start)
run_events-IsSettled_example =
    run_events-IsSettled feb trim_start
      (type_url right ∷ blur ∷ resultado_event 0 true ∷ type_url (codes "ftp") ∷ blur ∷ []) start
      start-IsSettled

abbrev typed : Form
typed = record start { url = right; federation = some (codes "1") }

blur-asks_example : step feb trim_start blur typed ≡ record typed {
  resultado =
      codes "<img src='/feb/imagens/ajax-loader.gif' border='0' alt='Verificando' align='middle'>";
  links = codes "/feb/admin/verificaLinkOAI?federation=true&link=http://a.br/oai" ∷ [];
}
unfolding trim_start
blur-asks_example = blur-asks feb trim_start typed

blur_runs :
    ((step feb trim_start blur typed).links
      ≡ codes "/feb/admin/verificaLinkOAI?federation=true&link=http://a.br/oai" ∷ [])
    × ((step feb trim_start blur (record typed { url = codes "http://" })).is_red ≡ true)
    × ((step feb trim_start blur (record typed { url = codes "https://" })).links
        ≡ codes "/feb/admin/verificaLinkOAI?federation=true&link=https://" ∷ [])
unfolding starts_with_http trim_start
blur_runs = (refl, refl, refl)

run_events-stale_example :
    run_events feb trim_start
      (type_url right
        ∷ blur
        ∷ type_url wrong
        ∷ blur
        ∷ resultado_event 1 false
        ∷ resultado_event 0 true
        ∷ [])
      start
    ≡ record start {
      url = wrong;
      is_green = true;
      links =
          verifica_link feb false (trim_start right)
          ∷ verifica_link feb false (trim_start wrong)
          ∷ [];
    }
unfolding starts_with_http trim_start
run_events-stale_example = run_events-stale feb trim_start start right wrong refl refl refl refl
