-- ===== src/Relay/Delivery.antt =====
-- src/relay.rs and src/pool.rs together: a request that is forwarded, and its answer.
use kafka_proxy.Base.{
  ℕ, ◌+◌, ◌^◌, ◌≤◌, ◌<◌, ◌≡◌, sym, ◌∙◌, false, List, ◌++◌, none, some, arith, Option-cases, inl,
  inr, All,
}
use kafka_proxy.Base.Map.{get}
use kafka_proxy.Wire.{Bytes, put_i32}
use kafka_proxy.Metrics.{Metrics, inc_requests_in_flight}
use kafka_proxy.Rewrite.Codec.{Protocol}
use kafka_proxy.Rewrite.{RewriteMap, needs_rewrite}
use kafka_proxy.Pool.Remap.{CidRemap, route_entry, i32_max, insert, take}
use kafka_proxy.Pool.Remap.Alloc.{next_cid_of-IsCid}
use kafka_proxy.Pool.Remap.Invariant.{IsValid, insert-IsValid}
use kafka_proxy.Pool.Remap.Runs.{insert-next_cid, Call, run, insertions}
use kafka_proxy.Pool.Remap.Laws.{Leaves, insert_found, run_kept, take_found, get-take}
use kafka_proxy.Pool.Broker.{BrokerPool, Acquired, register_request}
use kafka_proxy.Pool.Route.{read_loop_round, read_loop_round_plain}
use kafka_proxy.Relay.Pooled.{PooledRelay, World, forwarded, request_of, with_cid, send_request}

inc_requests_in_flight_lem :
    (m : Metrics)
    → ((inc_requests_in_flight m).enabled ≡ m.enabled)
      × ((inc_requests_in_flight m).cid_map_entries ≡ m.cid_map_entries)
unfolding inc_requests_in_flight
inc_requests_in_flight_lem m = ground arith

inc_requests_in_flight-IsValid :
    (r : CidRemap) (m : Metrics) → IsValid r m → IsValid r (inc_requests_in_flight m)
inc_requests_in_flight-IsValid r m v = record {
  distinct = v.distinct;
  issued = v.issued;
  counter = v.counter;
  bounded = v.bounded;
  small = v.small;
  gauge =
      λ e. (inc_requests_in_flight_lem m).1 ∙ v.gauge (sym ((inc_requests_in_flight_lem m).0) ∙ e);
}

module _ (w : World) (a a' : Acquired) (key version cid_d cid_u : ℕ) (bytes frame : Bytes)
    (c c' : PooledRelay) (pool pool' : BrokerPool)
    (sent : send_request w a (key, version, cid_d) bytes c pool
      ≡ some (forwarded a' cid_u frame, c', pool')) where
  sent_inserted :
      ((insert (request_of w a (key, version, cid_d) c) pool.cid_remap pool.metrics).0 ≡ some cid_u)
      × (pool'.cid_remap
          ≡ (insert (request_of w a (key, version, cid_d) c) pool.cid_remap pool.metrics).1)
      × (pool'.metrics
          ≡ inc_requests_in_flight
              (insert (request_of w a (key, version, cid_d) c) pool.cid_remap pool.metrics).2)
      × (with_cid cid_u bytes ≡ some frame)
  unfolding send_request register_request
  sent_inserted =
      elim (Option-cases
        (insert (request_of w a (key, version, cid_d) c) pool.cid_remap pool.metrics).0) [
          | inl e ↦ ground arith
          | inr (u, e) ↦ elim (Option-cases (with_cid u bytes)) [
            | inl n ↦ ground arith
            | inr (f, g) ↦ ground arith
          ]
        ]

  -- A client gets its own answer. Let the request be forwarded under `cid_u`, with the table valid and
  -- the counter not about to wrap; let any other traffic follow that does not answer `cid_u` and does
  -- not fail the connection; then let the broker answer `cid_u`. The answer goes to the channel of the
  -- client that asked, under the correlation id that it chose, with the body as the broker sent it
  -- (for an api key that is not rewritten), and the table no longer holds `cid_u`.
  pub delivered :
      (p : Protocol) (map : RewriteMap) (now : ℕ) (body : Bytes) (traffic : List Call)
      → IsValid pool.cid_remap pool.metrics
      → pool.cid_remap.next_cid + 1 + insertions traffic ≤ i32_max
      → All (Leaves cid_u (route_entry (request_of w a (key, version, cid_d) c))) traffic
      → needs_rewrite key ≡ false
      → (r : CidRemap) × (m : Metrics) × (read_loop_round p now
            (put_i32 cid_u ++ body)
            map
            (run traffic (pool'.cid_remap, pool'.metrics)).0
            (run traffic (pool'.cid_remap, pool'.metrics)).1
          ≡ some (
            some (record { downstream_tx = c.downstream_tx; frame = put_i32 cid_d ++ body }),
            r,
            m,
          ))
        × (get cid_u r.map ≡ none)
  delivered p map now body traffic v few leaves plain =
      let q = request_of w a (key, version, cid_d) c in
      let (inserted, table, metrics, _) = sent_inserted in
      let (issued, found) = insert_found q pool.cid_remap pool.metrics cid_u inserted in
      let r₁ = (insert q pool.cid_remap pool.metrics).1 in
      let m₁ = (insert q pool.cid_remap pool.metrics).2 in
      let v₁ : IsValid pool'.cid_remap pool'.metrics =
        rw (table, metrics)
          (inc_requests_in_flight-IsValid r₁ m₁
            (insert-IsValid q pool.cid_remap pool.metrics v (omega arith))) in
      let found' : get cid_u pool'.cid_remap.map ≡ some (route_entry q) = rw table found in
      let step : pool'.cid_remap.next_cid ≤ pool.cid_remap.next_cid + 1 =
        rw table (insert-next_cid q pool.cid_remap pool.metrics v.counter (omega arith)) in
      let s = run traffic (pool'.cid_remap, pool'.metrics) in
      let kept =
        run_kept traffic pool'.cid_remap pool'.metrics cid_u (route_entry q) v₁ (omega arith) leaves
          found' in
      let (m', round) =
        read_loop_round_plain p now cid_u body (route_entry q) map s.0 s.1 small
          (take_found s.0 s.1 cid_u (route_entry q) kept) plain in
      ((take cid_u s.0 s.1).1, m', round, gone s.0 s.1)
    where
      small : cid_u < 2 ^ 32
      small =
          let (inserted, _, _, _) = sent_inserted in
          let (issued, _) =
            insert_found (request_of w a (key, version, cid_d) c) pool.cid_remap pool.metrics cid_u
              inserted in
          rw issued (omega (arith, next_cid_of-IsCid pool.cid_remap.next_cid (omega arith)))

      gone : (r : CidRemap) (m : Metrics) → get cid_u (take cid_u r m).1.map ≡ none
      gone r m = ground (arith, get-take r m cid_u cid_u)
