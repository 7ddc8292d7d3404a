-- ===== src/Api/RouterTests.antt =====
-- Runs and a witness for the routes.
use kafka_proxy.Base.{◌≡◌, refl, List, [], ◌∷◌, Option, none, some, if◌then◌else◌}
use kafka_proxy.Text.{Text, codes, text_eq}
use kafka_proxy.Api.Render.{ConsumerRecord}
use kafka_proxy.Api.Router.{
  get, post, not_found, handled, method_not_allowed, health_handler, build_router, dispatch,
  has_no_capture, unescape, MatchesLiterals, dispatch-topic,
}

-- A matcher that knows patterns without a capture only.
abbrev literal_captures : Text → Text → Option (List Text)
literal_captures pattern path =
    if has_no_capture pattern
    then (if text_eq path (unescape pattern) then some [] else none)
    else none

literal_captures-MatchesLiterals : MatchesLiterals literal_captures
literal_captures-MatchesLiterals pattern path literal = rw literal refl

health_run :
    (dispatch literal_captures get (codes "/health") build_router ≡ handled health_handler [])
    × (dispatch literal_captures post (codes "/health") build_router ≡ method_not_allowed)
unfolding dispatch build_router
health_run = (refl, refl)

dispatch-topic_example :
    (dispatch literal_captures get (codes "/doctor/consumers/orders") build_router ≡ not_found)
    × (dispatch literal_captures get (codes "/doctor/messages/orders") build_router ≡ not_found)
dispatch-topic_example =
    dispatch-topic literal_captures literal_captures-MatchesLiterals get (codes "orders") refl

-- A record with a key that is not UTF-8.
abbrev binary_record : ConsumerRecord
binary_record = record {
  partition = 0;
  offset = 3;
  timestamp = 9;
  key = some (0xff ∷ []);
  value = b'v' ∷ [];
  headers = record { key = b'h' ∷ []; value = 0xc3 ∷ [] } ∷ [];
}
