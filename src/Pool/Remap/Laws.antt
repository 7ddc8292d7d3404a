-- ===== src/Pool/Remap/Laws.antt =====
-- src/pool.rs: a request in flight is found again, whatever other requests and connections do.
use kafka_proxy.Base.{
  ℕ, ◌+◌, ◌≤◌, ◌<◌, ◌≡◌, ◌≢◌, ◌↔◌, not, List, [], ◌∷◌, none, some, arith, ◌==◌, if◌then◌else◌, All,
}
use kafka_proxy.Base.Map.{get, remove, get-insert, get-remove, get-retain_values-some}
use kafka_proxy.Metrics.{Metrics}
use kafka_proxy.Pool.Remap.{
  CidRemap, RouteEntry, Request, route_entry, i32_max, next_cid_of, insert, take, in_flight,
  fail_conn,
}
use kafka_proxy.Pool.Remap.Invariant.{
  IsValid, insert_fresh, insert-IsValid, take-IsValid, fail_conn-IsValid,
}
use kafka_proxy.Pool.Remap.Runs.{
  Call, inserts, takes, fails, step, run, insertions, insert-next_cid, take-next_cid,
  fail_conn-next_cid,
}

-- `insert` refuses a request exactly when the table is at its limit.
pub insert-eq-none_iff :
    (q : Request) (r : CidRemap) (m : Metrics)
    → ((insert q r m).0 ≡ none) ↔ (r.max_in_flight ≤ in_flight r)
unfolding insert in_flight
insert-eq-none_iff q r m = ground arith

-- The calls that leave an entry alone: other insertions, other ids, and failures of other
-- connections.
abbrev pub Leaves : ℕ → RouteEntry → Call → Type 0
Leaves cid_u e (inserts q) = Unit {0}
Leaves cid_u e (takes k) = k ≢ cid_u
Leaves cid_u e (fails conn_id) = e.conn_id ≢ conn_id

pub insert_found :
    (q : Request) (r : CidRemap) (m : Metrics) (cid_u : ℕ)
    → (insert q r m).0 ≡ some cid_u
    → (cid_u ≡ next_cid_of r.next_cid) × (get cid_u (insert q r m).1.map ≡ some (route_entry q))
unfolding insert
insert_found q r m cid_u e = ground (arith, get-insert cid_u cid_u (route_entry q) r.map)

insert_kept :
    (q : Request) (r : CidRemap) (m : Metrics) (cid_u : ℕ) (e : RouteEntry)
    → IsValid r m
    → r.next_cid < i32_max
    → get cid_u r.map ≡ some e
    → get cid_u (insert q r m).1.map ≡ some e
unfolding insert
insert_kept q r m cid_u e v lt h =
    ground (
      arith,
      insert_fresh r m v lt,
      get-insert (next_cid_of r.next_cid) cid_u (route_entry q) r.map,
    )

pub take_found :
    (r : CidRemap) (m : Metrics) (cid_u : ℕ) (e : RouteEntry)
    → get cid_u r.map ≡ some e
    → (take cid_u r m).0 ≡ some e
unfolding take
take_found r m cid_u e h = ground arith

take_map : (r : CidRemap) (m : Metrics) (k : ℕ) → (take k r m).1.map ≡ remove k r.map
unfolding take
take_map r m k = ground arith

fail_conn_kept :
    (r : CidRemap) (m : Metrics) (cid_u conn_id : ℕ) (e : RouteEntry)
    → IsValid r m
    → get cid_u r.map ≡ some e
    → get cid_u (fail_conn conn_id r m).1.map ≡ (if e.conn_id == conn_id then none else some e)
unfolding fail_conn
fail_conn_kept r m cid_u conn_id e v h = ground (
  arith,
  get-retain_values-some (λ (x : RouteEntry). not (x.conn_id == conn_id)) cid_u e r.map v.distinct
      h,
)

step_kept :
    (c : Call) (r : CidRemap) (m : Metrics) (cid_u : ℕ) (e : RouteEntry)
    → IsValid r m
    → r.next_cid + insertions (c ∷ []) ≤ i32_max
    → Leaves cid_u e c
    → get cid_u r.map ≡ some e
    → get cid_u (step c (r, m)).0.map ≡ some e
unfolding step insertions
step_kept (inserts q) r m cid_u e v few l h = insert_kept q r m cid_u e v (omega arith) h
step_kept (takes k) r m cid_u e v few l h = ground (arith, take_map r m k, get-remove k cid_u r.map)
step_kept (fails conn_id) r m cid_u e v few l h =
    ground (arith, fail_conn_kept r m cid_u conn_id e v h)

step-IsValid :
    (c : Call) (r : CidRemap) (m : Metrics)
    → IsValid r m
    → r.next_cid + insertions (c ∷ []) ≤ i32_max
    → IsValid (step c (r, m)).0 (step c (r, m)).1
      × ((step c (r, m)).0.next_cid ≤ r.next_cid + insertions (c ∷ []))
unfolding step insertions
step-IsValid (inserts q) r m v few = (
  insert-IsValid q r m v (omega arith),
  omega (arith, insert-next_cid q r m v.counter (omega arith)),
)
step-IsValid (takes k) r m v few = (take-IsValid k r m v, omega (arith, take-next_cid k r m))
step-IsValid (fails k) r m v few =
    (fail_conn-IsValid k r m v, omega (arith, fail_conn-next_cid k r m))

insertions-cons :
    (c : Call) (cs : List Call) → insertions (c ∷ cs) ≡ insertions (c ∷ []) + insertions cs
unfolding insertions
insertions-cons (inserts q) cs = omega arith
insertions-cons (takes k) cs = omega arith
insertions-cons (fails k) cs = omega arith

pub run_kept :
    (cs : List Call) (r : CidRemap) (m : Metrics) (cid_u : ℕ) (e : RouteEntry)
    → IsValid r m
    → r.next_cid + insertions cs ≤ i32_max
    → All (Leaves cid_u e) cs
    → get cid_u r.map ≡ some e
    → get cid_u (run cs (r, m)).0.map ≡ some e
unfolding run
run_kept [] r m cid_u e v few l h = h
run_kept (c ∷ cs) r m cid_u e v few l h =
    let split = insertions-cons c cs in
    let (v', le) = step-IsValid c r m v (omega arith) in
    run_kept cs _ _ cid_u e v' (omega arith) l.1 (step_kept c r m cid_u e v (omega arith) l.0 h)

-- A response finds its request. Let `insert` register a request under `cid_u`, and then let any
-- calls follow that neither take `cid_u` nor fail the request's connection, as long as the counter
-- does not wrap. Then `take cid_u` returns the downstream channel, the client's correlation id, the
-- api key and the version that were registered.
pub take-run-insert :
    (cs : List Call) (q : Request) (r : CidRemap) (m : Metrics) (cid_u : ℕ)
    → IsValid r m
    → r.next_cid + 1 + insertions cs ≤ i32_max
    → (insert q r m).0 ≡ some cid_u
    → All (Leaves cid_u (route_entry q)) cs
    → (take cid_u
        (run cs ((insert q r m).1, (insert q r m).2)).0
        (run cs ((insert q r m).1, (insert q r m).2)).1).0
      ≡ some (route_entry q)
take-run-insert cs q r m cid_u v few e l = take_found _ _ cid_u (route_entry q) (
    run_kept cs _ _ cid_u (route_entry q) (insert-IsValid q r m v (omega arith))
      (omega (arith, insert-next_cid q r m v.counter (omega arith))) l
      (insert_found q r m cid_u e).1)

-- A response is delivered once: after `take` the id stands for nothing, and every other id stands
-- for what it stood for.
pub get-take :
    (r : CidRemap) (m : Metrics) (cid_u j : ℕ)
    → get j (take cid_u r m).1.map ≡ (if cid_u == j then none else get j r.map)
get-take r m cid_u j = rw (take_map r m cid_u) (get-remove cid_u j r.map)

-- When a connection fails, the requests sent over it leave the table and all others stay.
pub get-fail_conn :
    (r : CidRemap) (m : Metrics) (cid_u conn_id : ℕ) (e : RouteEntry)
    → IsValid r m
    → get cid_u r.map ≡ some e
    → get cid_u (fail_conn conn_id r m).1.map ≡ (if e.conn_id == conn_id then none else some e)
get-fail_conn r m cid_u conn_id e v h = fail_conn_kept r m cid_u conn_id e v h

-- The counter wraps to 1 without looking at the table: if the request with id 1 is still in flight
-- then and the table is below its limit, the next request gets the id 1 and takes its place.
pub insert_wrap_overwrites :
    (q : Request) (r : CidRemap) (m : Metrics) (e : RouteEntry)
    → r.next_cid ≡ i32_max
    → in_flight r < r.max_in_flight
    → get 1 r.map ≡ some e
    → ((insert q r m).0 ≡ some 1) × (get 1 (insert q r m).1.map ≡ some (route_entry q))
unfolding insert in_flight next_cid_of
insert_wrap_overwrites q r m e wrap room h = ground (arith, get-insert 1 1 (route_entry q) r.map)
