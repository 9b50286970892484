-- ===== src/Links.antt =====
-- scripts/testUrlActive.js: each link with the class `verifyUrl` is looked up by a public service, and
-- then, if need be, by the server; an image behind the link tells whether it is active. What goes
-- to the console is left out.
pub mod Verdict
pub mod Finished
pub mod Outcome
mod Tests
use Prim.Native.Nat.{ℕ}
use mathlib.Core.Bool.{Bool, true, false}
use mathlib.Core.Option.{Option, none, some}
use mathlib.Core.List.{List, [], ◌∷◌, ◌++◌}
use inroa.Base.{Text, codes, if◌then◌else◌}
use inroa.Regex.{Regex, seq, any_char, anything, literal, test}

-- `imgTrue` and `imgFalse`
pub data Image : Type 0 where
  img_true img_false : Image

abbrev pub image_html : Text → Image → Text
image_html root_url img_true =
    codes "<img class='imgchecklink' src='"
    ++ (root_url ++ codes "imagens/check.png' border='0' alt='Link correto' title='link ativo'>")
image_html root_url img_false =
    codes "<img class='imgchecklink' src='"
    ++ (root_url
        ++ codes "imagens/error.png' border='0' alt='Link quebrado' title='link quebrado'>")

-- Which answer is awaited for a link: none yet, the service's, the server's, or no more.
pub data Phase : Type 0 where
  unread query internal finished : Phase

-- A request: its address, and the data that jQuery encodes.
pub record Request : Type 0 where
  pub address : Text
  pub fields : List (Text × Text)

-- A link: its `href`, what is awaited, what was asked for, and the images behind it.
pub record Check : Type 0 where
  pub url : Option Text
  pub phase : Phase
  pub asked : List Request
  pub images : List Image

-- `/.swf$/`
abbrev pub swf_reg_exp : Regex
swf_reg_exp = seq anything (seq any_char (literal (codes "swf")))

unfoldable pub is_swf : Text → Bool
unfolding literal test
is_swf url = test swf_reg_exp url

-- `resultado.query.results` as a condition; without `query` it throws, and nothing more happens.
pub data Yql : Type 0 where
  results : Bool → Yql
  no_query : Yql

-- What reaches a link: the page is loaded, the service answers or fails (by its time of five seconds or
-- otherwise), and the server answers or fails.
pub data Event : Type 0 where
  load : Event
  success : Yql → Event
  fail : Text → Event
  internal_success : Bool → Event
  internal_fail : Event

abbrev pub yql_link : Text → Text
yql_link url =
    codes "http://query.yahooapis.com/v1/public/yql?q=select%20*%20from%20html%20where%20url%3D%22"
    ++ (url ++ codes "%22&format=json")

abbrev pub append : Image → Check → Check
append image check = record check { images = check.images ++ image ∷ []; phase = finished }

-- The loop over the links, for one with an address that is not empty.
abbrev pub load_link : Text → Check → Check
load_link url check =
    let request : Request = record { address = yql_link url; fields = [] } in
    record check { phase = query; asked = check.asked ++ request ∷ [] }

module _ (root_url : Text) where
  -- `checkUrlInternal`: the request.
  abbrev pub check_url_internal : Text → Check → Check
  check_url_internal url check =
      let request : Request = record {
        address = root_url ++ codes "verificaUrl";
        fields = (codes "url", url) ∷ [];
      } in
      record check { phase = internal; asked = check.asked ++ request ∷ [] }

  -- The function that `getJSON` calls.
  unfoldable pub on_resultado : Text → Bool → Check → Check
  unfolding is_swf
  on_resultado url resultado check =
      if resultado
      then append img_true check
      else if is_swf url
      then record check { phase = finished }
      else append img_false check

  abbrev pub on_success : Text → Yql → Check → Check
  on_success url (results found) check =
      if found then append img_true check else check_url_internal url check
  on_success url no_query check = record check { phase = finished }

  -- Only the answer that is awaited comes.
  abbrev pub on_event : Text → Phase → Event → Check → Check
  on_event url unread load check = load_link url check
  on_event url query (success yql) check = on_success url yql check
  on_event url query (fail status) check = check_url_internal url check
  on_event url internal (internal_success found) check = on_resultado url found check
  on_event url internal internal_fail check = record check { phase = finished }
  on_event url _ _ check = check

  -- A link without an address, or with an empty one, is passed over.
  abbrev pub with_url : Option Text → Event → Check → Check
  with_url none event check = check
  with_url (some []) event check = check
  with_url (some (c ∷ url)) event check = on_event (c ∷ url) check.phase event check

  unfoldable pub step : Event → Check → Check
  unfolding on_resultado
  step event check = with_url check.url event check

  unfoldable pub run_events : List Event → Check → Check
  unfolding step
  run_events [] check = check
  run_events (event ∷ events) check = run_events events (step event check)
