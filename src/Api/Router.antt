-- ===== src/Api/Router.antt =====
-- src/api.rs: `build_router`, `health_handler`, and the reply to /metrics. Which paths a pattern
-- matches is up to axum: an argument, with what its documentation says of a pattern that has no
-- capture.
use kafka_proxy.Base.{
  ◌∙◌, All, ℕ, ◌≡◌, refl, Bool, true, false, ◌&&◌, ◌||◌, List, [], ◌∷◌, ◌++◌, Option, none, some,
  if◌then◌else◌, ◌==◌,
}
use kafka_proxy.Text.{Text, codes, text_eq}
use kafka_proxy.Metrics.{Metrics}
use kafka_proxy.Metrics.Render.{Floats, render_prometheus}
use kafka_proxy.Api.{Reply, json, ok}

pub data Method : Type 0 where
  get post : Method

-- The handlers, by their names in the source.
pub data Handler : Type 0 where
  health_handler metrics_closure list_topics_handler create_topic_handler list_consumers_handler
        latest_messages_handler send_message_handler connections_handler :
      Handler

pub record Route : Type 0 where
  pub pattern : Text
  pub on_get : Option Handler
  pub on_post : Option Handler

abbrev pub get_only : Text → Handler → Route
get_only pattern h = record { pattern = pattern; on_get = some h; on_post = none }

-- The patterns are plain string literals: their braces are doubled as they stand in the source.
unfoldable pub build_router : List Route
build_router =
    get_only (codes "/health") health_handler
    ∷ get_only (codes "/metrics") metrics_closure
    ∷ record {
      pattern = codes "/doctor/topics";
      on_get = some list_topics_handler;
      on_post = some create_topic_handler;
    }
    ∷ get_only (codes "/doctor/consumers/{{topic}}") list_consumers_handler
    ∷ record {
      pattern = codes "/doctor/messages/{{topic}}";
      on_get = some latest_messages_handler;
      on_post = some send_message_handler;
    }
    ∷ get_only (codes "/doctor/connections") connections_handler
    ∷ []

-- `{"status": "ok"}`
abbrev pub health_reply : Reply Text
health_reply = json ok (codes "ok")

-- The content type and the body of /metrics; `none` is a panic.
unfoldable pub metrics_reply : Floats → ℕ → Metrics → Option (Text × Text)
metrics_reply f rss m = elim (render_prometheus f rss m) [
  | none ↦ none
  | some body ↦ some (codes "text/plain; version=0.0.4", body)
]

-- What a request comes to: a handler with the captured texts, or 405 or 404.
pub data Answer : Type 0 where
  handled : Handler → List Text → Answer
  method_not_allowed : Answer
  not_found : Answer

abbrev pub for_method : Method → Route → Option Handler
for_method get r = r.on_get
for_method post r = r.on_post

abbrev pub answer_of : Option Handler → List Text → Answer
answer_of none params = method_not_allowed
answer_of (some h) params = handled h params

-- `captures` tells whether a path matches a pattern, and what it captures.
unfoldable pub dispatch : (Text → Text → Option (List Text)) → Method → Text → List Route → Answer
dispatch captures m path [] = not_found
dispatch captures m path (r ∷ rs) =
    let rest = dispatch captures m path rs in
    elim (captures r.pattern path) [ none ↦ rest | some params ↦ answer_of (for_method m r) params ]

-- A brace in a pattern stands for itself when it is doubled.
abbrev pub is_brace : ℕ → Bool
is_brace c = c == b'{' || c == b'}'

-- No brace of the pattern begins or ends a capture: all are doubled.
abbrev pub has_no_capture : Text → Bool
has_no_capture [] = true
has_no_capture (c ∷ []) = if is_brace c then false else true
has_no_capture (c ∷ d ∷ s) =
    if is_brace c then (c == d && has_no_capture s) else has_no_capture (d ∷ s)

abbrev pub unescape : Text → Text
unescape [] = []
unescape (c ∷ []) = c ∷ []
unescape (c ∷ d ∷ s) = if is_brace c then c ∷ unescape s else c ∷ unescape (d ∷ s)

-- What is documented of axum's patterns: one without a capture matches exactly the path that it
-- spells, and captures nothing.
abbrev pub MatchesLiterals : (Text → Text → Option (List Text)) → Type 0
MatchesLiterals captures =
    (pattern path : Text)
    → has_no_capture pattern ≡ true
    → captures pattern path ≡ (if text_eq path (unescape pattern) then some [] else none)

abbrev Misses : (Text → Text → Option (List Text)) → Text → Route → Type 0
Misses captures path r = captures r.pattern path ≡ none

dispatch-Misses :
    (captures : Text → Text → Option (List Text)) (m : Method) (path : Text) (rs : List Route)
    → All (Misses captures path) rs
    → dispatch captures m path rs ≡ not_found
unfolding dispatch
dispatch-Misses captures m path [] misses = refl
dispatch-Misses captures m path (r ∷ rs) misses =
    rw (misses.0, dispatch) (dispatch-Misses captures m path rs misses.1)

module _ (captures : Text → Text → Option (List Text)) (literals : MatchesLiterals captures) where
  misses :
      (pattern path : Text)
      → has_no_capture pattern ≡ true
      → text_eq path (unescape pattern) ≡ false
      → captures pattern path ≡ none
  misses pattern path literal other = literals pattern path literal ∙ rw other refl

  consumers-Misses :
      (topic : Text)
      → text_eq topic (codes "{topic}") ≡ false
      → All (Misses captures (codes "/doctor/consumers/" ++ topic)) build_router
  unfolding build_router
  consumers-Misses topic other =
      let path = codes "/doctor/consumers/" ++ topic in
      (
        misses (codes "/health") path refl refl,
        (
          misses (codes "/metrics") path refl refl,
          (
            misses (codes "/doctor/topics") path refl refl,
            (
              misses (codes "/doctor/consumers/{{topic}}") path refl other,
              (
                misses (codes "/doctor/messages/{{topic}}") path refl refl,
                (misses (codes "/doctor/connections") path refl refl, tt),
              ),
            ),
          ),
        ),
      )

  messages-Misses :
      (topic : Text)
      → text_eq topic (codes "{topic}") ≡ false
      → All (Misses captures (codes "/doctor/messages/" ++ topic)) build_router
  unfolding build_router
  messages-Misses topic other =
      let path = codes "/doctor/messages/" ++ topic in
      (
        misses (codes "/health") path refl refl,
        (
          misses (codes "/metrics") path refl refl,
          (
            misses (codes "/doctor/topics") path refl refl,
            (
              misses (codes "/doctor/consumers/{{topic}}") path refl refl,
              (
                misses (codes "/doctor/messages/{{topic}}") path refl other,
                (misses (codes "/doctor/connections") path refl refl, tt),
              ),
            ),
          ),
        ),
      )

  -- The endpoints with a topic cannot be reached: whatever the method, a path that names a topic under
  -- /doctor/consumers or /doctor/messages is not found, unless the topic is the text {topic} itself.
  pub dispatch-topic :
      (m : Method) (topic : Text)
      → text_eq topic (codes "{topic}") ≡ false
      → (dispatch captures m (codes "/doctor/consumers/" ++ topic) build_router ≡ not_found)
        × (dispatch captures m (codes "/doctor/messages/" ++ topic) build_router ≡ not_found)
  dispatch-topic m topic other = (
    dispatch-Misses captures m (codes "/doctor/consumers/" ++ topic) build_router
        (consumers-Misses topic other),
    dispatch-Misses captures m (codes "/doctor/messages/" ++ topic) build_router
        (messages-Misses topic other),
  )
