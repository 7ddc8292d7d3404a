-- ===== src/Api/Connections.antt =====
-- src/api.rs: `connections_handler`, on the tracker of src/relay.rs. A peer's text is an argument; a
-- time is in nanoseconds, and a duration is shown in whole milliseconds where the source has a float.
use kafka_proxy.Base.{
  ℕ, ◌+◌, ◌-◌, ◌/◌, Bool, true, false, ◌&&◌, ◌||◌, List, [], ◌∷◌, map, ltb, ◌==◌, length,
}
use kafka_proxy.Base.Map.{Map}
use kafka_proxy.Base.Sort.{sort_by}
use kafka_proxy.Text.{Text}
use kafka_proxy.Api.{Reply, json, ok}

pub record ConnectionEntry : Type 0 where
  pub peer : Text
  pub node_id : ℕ
  pub duration_millis : ℕ

pub record ConnectionList : Type 0 where
  pub connections : List ConnectionEntry
  pub count : ℕ

-- The order of strings, by their bytes.
abbrev pub text_le : Text → Text → Bool
text_le [] t = true
text_le (c ∷ s) [] = false
text_le (c ∷ s) (d ∷ t) = ltb c d || (c == d && text_le s t)

abbrev pub peer_le : ConnectionEntry → ConnectionEntry → Bool
peer_le a b = text_le a.peer b.peer

abbrev pub connection_entry : (ℕ → Text) → ℕ → ℕ × (ℕ × ℕ) → ConnectionEntry
connection_entry show now (peer, (node_id, started)) = record {
  peer = show peer;
  node_id = node_id;
  duration_millis = (now - started + 500_000) / 1_000_000;
}

unfoldable pub connections_handler : (ℕ → Text) → ℕ → Map (ℕ × ℕ) → Reply ConnectionList
connections_handler show now tracker =
    let conns = sort_by peer_le (map (connection_entry show now) tracker) in
    json ok (record { connections = conns; count = length conns })
