-- ===== src/Api/Serve.antt =====
-- src/api.rs: `ApiDeps` and `serve`, up to the wait for requests.
use kafka_proxy.Base.{ℕ, ◌*◌, List, Bool, Option, none, some, if◌then◌else◌}
use kafka_proxy.Base.Map.{Map}
use kafka_proxy.Text.{Text}
use kafka_proxy.Config.Sections.{ApiConfig}
use kafka_proxy.Metrics.{Metrics}
use kafka_proxy.Api.Router.{Route, build_router}

-- What the handlers share, kafka_client's client aside.
pub record ApiDeps : Type 0 where
  pub metrics : Metrics
  pub conn_tracker : Map (ℕ × ℕ)
  pub default_count : ℕ

unfoldable pub new : Metrics → Map (ℕ × ℕ) → ApiConfig → ApiDeps
new metrics conn_tracker cfg = record {
  metrics = metrics;
  conn_tracker = conn_tracker;
  default_count = cfg.default_count;
}

-- A server that listens.
pub record Server : Type 0 where
  pub listen : Text
  pub routes : List Route
  pub body_limit : ℕ
  pub deps : ApiDeps

-- `none` when the address cannot be bound.
unfoldable pub serve : (Text → Bool) → ApiDeps → ApiConfig → Option Server
serve bind deps cfg =
    if bind cfg.listen
    then some (record {
      listen = cfg.listen;
      routes = build_router;
      body_limit = 10 * 1024 * 1024;
      deps = deps;
    })
    else none
