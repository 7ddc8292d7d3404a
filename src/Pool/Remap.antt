-- ===== src/Pool/Remap.antt =====
-- src/pool.rs: `CidRemap`, the table from upstream correlation ids to the requests in flight. Each
-- method is a call with no other task in between; an i32 is its 32-bit pattern. A channel is a
-- number that names it.
pub mod Alloc
pub mod Invariant
pub mod Runs
pub mod Laws
pub mod Entries
pub mod Interleaved
mod Tests
use kafka_proxy.Base.{
  ℕ, ◌+◌, ◌-◌, ◌%◌, ◌^◌, Bool, true, false, not, ◌||◌, [], ◌∷◌, Option, none, some, ◌==◌, leb,
  length, if◌then◌else◌,
}
use kafka_proxy.Base.Map.{Map, get, insert as map_insert, remove, retain_values}
use kafka_proxy.Metrics.{
  Metrics, inc_cid_map_entries, dec_cid_map_entries, sub_cid_map_entries, word64,
}
use kafka_proxy.Wire.{i32_le}

abbrev pub i32_max : ℕ
i32_max = 2 ^ 31 - 1

pub record RouteEntry : Type 0 where
  pub downstream_tx : ℕ
  pub cid_d : ℕ
  pub api_key : ℕ
  pub api_version : ℕ
  pub started : ℕ
  pub conn_id : ℕ

pub record CidRemap : Type 0 where
  pub map : Map RouteEntry
  pub next_cid : ℕ
  pub next_conn_id : ℕ
  pub max_in_flight : ℕ

unfoldable pub with_max_in_flight : ℕ → CidRemap
with_max_in_flight max = record { map = []; next_cid = 1; next_conn_id = 1; max_in_flight = max }

unfoldable pub new : CidRemap
unfolding with_max_in_flight
new = with_max_in_flight 100_000

-- The value that the loop of `alloc_cid_u` tries to store after it has loaded `prev`.
unfoldable pub next_cid_of : ℕ → ℕ
next_cid_of prev = if i32_le prev 0 || prev == i32_max then 1 else prev + 1

-- The round of `alloc_cid_u` whose compare-exchange succeeds; the others change nothing.
unfoldable pub alloc_cid_u : CidRemap → ℕ × CidRemap
unfolding next_cid_of
alloc_cid_u r = let next = next_cid_of r.next_cid in (next, record r { next_cid = next })

unfoldable pub alloc_conn_id : CidRemap → ℕ × CidRemap
alloc_conn_id r = (r.next_conn_id, record r { next_conn_id = (r.next_conn_id + 1) % word64 })

-- The request of a downstream client, as `insert` is given it, with the time of the call.
pub record Request : Type 0 where
  pub downstream_tx : ℕ
  pub cid_d : ℕ
  pub api_key : ℕ
  pub api_version : ℕ
  pub conn_id : ℕ
  pub now : ℕ

abbrev pub route_entry : Request → RouteEntry
route_entry q = record {
  downstream_tx = q.downstream_tx;
  cid_d = q.cid_d;
  api_key = q.api_key;
  api_version = q.api_version;
  started = q.now;
  conn_id = q.conn_id;
}

-- The call with no other task in between. The source has no lock over the test of the length, the
-- new id and the store: Pool/Remap/Interleaved has these as steps of their own.
unfoldable pub insert : Request → CidRemap → Metrics → Option ℕ × CidRemap × Metrics
unfolding alloc_cid_u
insert q r m =
    if leb r.max_in_flight (length r.map)
    then (none, r, m)
    else let (cid_u, r') = alloc_cid_u r in
      (
        some cid_u,
        record r' { map = map_insert cid_u (route_entry q) r'.map },
        inc_cid_map_entries m,
      )

unfoldable pub take : ℕ → CidRemap → Metrics → Option RouteEntry × CidRemap × Metrics
take cid_u r m = elim (get cid_u r.map) [
  | none ↦ (none, record r { map = remove cid_u r.map }, m)
  | some e ↦ (some e, record r { map = remove cid_u r.map }, dec_cid_map_entries m)
]

unfoldable pub in_flight : CidRemap → ℕ
in_flight r = length r.map

-- The call with no other task in between: with one, the difference of the lengths need not be the
-- number of the entries that the retain removes.
unfoldable pub fail_conn : ℕ → CidRemap → Metrics → ℕ × CidRemap × Metrics
fail_conn conn_id r m =
    let kept = retain_values (λ e. not (e.conn_id == conn_id)) r.map in
    let removed = length r.map - length kept in
    (removed, record r { map = kept }, sub_cid_map_entries removed m)
