-- ===== src/Links/Tests.antt =====
-- A link that the service does not know, and a Flash file.
use mathlib.Core.Path.{◌≡◌, refl}
use mathlib.Core.Bool.{true, false}
use mathlib.Core.Option.{some}
use mathlib.Core.List.{List, [], ◌∷◌}
use inroa.Base.{Text, codes}
use inroa.Links.{
  img_false, Check, unread, finished, is_swf, results, Event, load, success, fail, internal_success,
  run_events,
}
use inroa.Regex.{literal, test}
use inroa.Links.Verdict.{View, Moves, Shows, checking, waits, run_events-Moves}
use inroa.Links.Outcome.{fresh, run_events-decided}

abbrev link : Text → Check
link url = record { url = some url; phase = unread; asked = []; images = [] }

abbrev dead : Text
dead = codes "http://a.br/x"

abbrev answers : List Event
answers = load ∷ success (results false) ∷ internal_success false ∷ []

run_events-Moves_example :
    (w : View) × Moves checking w × Shows (run_events [] answers (link dead)) w
run_events-Moves_example = run_events-Moves [] answers (link dead) checking (waits tt refl)

-- The service fails, the server does not find the link, and its answer comes twice.
run_events-decided_example :
    run_events
      (codes "/feb/")
      (load ∷ fail (codes "timeout") ∷ internal_success false ∷ internal_success true ∷ [])
      (fresh dead)
    ≡ record {
      url = some dead;
      phase = finished;
      asked =
          record {
            address =
                codes
                  "http://query.yahooapis.com/v1/public/yql?q=select%20*%20from%20html%20where%20url%3D%22http://a.br/x%22&format=json";
            fields = [];
          }
          ∷ record {
            address = codes "/feb/verificaUrl";
            fields = (codes "url", codes "http://a.br/x") ∷ [];
          }
          ∷ [];
      images = img_false ∷ [];
    }
run_events-decided_example =
    run_events-decided (codes "/feb/") b'h' (codes "ttp://a.br/x") (fail (codes "timeout"))
      (internal_success false) (internal_success true ∷ []) tt tt

-- The point of the expression is any character.
is_swf_runs :
    (is_swf (codes "http://a.br/x.swf") ≡ true)
    × (is_swf (codes "http://a.br/xswf") ≡ true)
    × (is_swf (codes "http://a.br/x.swf?y") ≡ false)
unfolding is_swf test literal
is_swf_runs = (refl, refl, refl)

run_events_runs :
    ((run_events [] answers (link dead)).images ≡ img_false ∷ [])
    × ((run_events [] answers (link (codes "http://a.br/x.swf"))).images ≡ [])
    × ((run_events [] answers (link [])).asked ≡ [])
unfolding run_events
run_events_runs = (refl, refl, refl)
