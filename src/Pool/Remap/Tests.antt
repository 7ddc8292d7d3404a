-- ===== src/Pool/Remap/Tests.antt =====
-- Runs and witnesses for the table of correlation ids.
use kafka_proxy.Base.{ℕ, ◌+◌, ◌-◌, ◌≤◌, ◌≡◌, refl, true, List, [], ◌∷◌, some, arith}
use kafka_proxy.Base.Map.{Distinct}
use kafka_proxy.Metrics.{Metrics, new as new_metrics}
use kafka_proxy.Pool.Remap.{
  CidRemap, Request, route_entry, i32_max, next_cid_of, with_max_in_flight, alloc_cid_u, insert,
  take, in_flight,
}
use kafka_proxy.Pool.Remap.Alloc.{
  System, before_load, loaded, update, Step, Reach, AllDistinct, Reach-AllDistinct,
}
use kafka_proxy.Pool.Remap.Invariant.{IsValid, with_max_in_flight-IsValid}
use kafka_proxy.Pool.Remap.Runs.{Call, inserts, takes, fails, run, insertions}
use kafka_proxy.Pool.Remap.Interleaved.{turns, turn, task_step, idle, turns-in_flight}
use kafka_proxy.Pool.Remap.Laws.{take-run-insert}

-- A Fetch request of the client `downstream_tx` over the connection `conn_id`.
abbrev fetch : ℕ → ℕ → ℕ → Request
fetch downstream_tx cid_d conn_id = record {
  downstream_tx = downstream_tx;
  cid_d = cid_d;
  api_key = 1;
  api_version = 12;
  conn_id = conn_id;
  now = 0;
}

abbrev start : CidRemap
start = with_max_in_flight 10

abbrev metrics : Metrics
metrics = new_metrics true

start-IsValid : IsValid start metrics
start-IsValid = with_max_in_flight-IsValid 10 true (omega arith)

-- The first request gets the id 2.
first_id : (insert (fetch 7 40 3) start metrics).0 ≡ some 2
unfolding insert next_cid_of with_max_in_flight
first_id = refl

take-run-insert_example :
    (take 2
      (run
        (inserts (fetch 8 40 4) ∷ fails 4 ∷ takes 9 ∷ [])
        ((insert (fetch 7 40 3) start metrics).1, (insert (fetch 7 40 3) start metrics).2)).0
      (run
        (inserts (fetch 8 40 4) ∷ fails 4 ∷ takes 9 ∷ [])
        ((insert (fetch 7 40 3) start metrics).1, (insert (fetch 7 40 3) start metrics).2)).1).0
    ≡ some (route_entry (fetch 7 40 3))
take-run-insert_example =
    take-run-insert (inserts (fetch 8 40 4) ∷ fails 4 ∷ takes 9 ∷ []) (fetch 7 40 3) start metrics 2
      start-IsValid (unfold insertions with_max_in_flight in omega arith) first_id
      (tt, ((λ e. omega arith), ((λ e. omega arith), tt)))

-- Two tasks insert at once into a table with the limit 1: both find it empty.
abbrev race : List (ℕ × Call)
race =
    (0, inserts (fetch 7 40 3))
    ∷ (1, inserts (fetch 8 41 3))
    ∷ (0, takes 0)
    ∷ (1, takes 0)
    ∷ (1, takes 0)
    ∷ (0, takes 0)
    ∷ []

race_overshoots : in_flight (turns race (idle 2, with_max_in_flight 1)).1 ≡ 2
unfolding turns turn task_step idle with_max_in_flight alloc_cid_u next_cid_of in_flight
    kafka_proxy.Base.Map.insert
race_overshoots = refl

turns-in_flight_example :
    Distinct (turns race (idle 2, with_max_in_flight 1)).1.map
    × (in_flight (turns race (idle 2, with_max_in_flight 1)).1 ≤ 1 + (2 - 1))
turns-in_flight_example = turns-in_flight 2 1 race

-- The counter before it wraps, with the first request still in the table.
abbrev worn : CidRemap
worn = record {
  map = (1, route_entry (fetch 7 40 3)) ∷ [];
  next_cid = i32_max;
  next_conn_id = 5;
  max_in_flight = 10;
}

-- Two tasks load the counter, one stores, and the other one has to load again.
abbrev s0 : System
s0 = record { next_cid = 1; task = λ _. before_load; returned = [] }

abbrev s1 : System
s1 = record s0 { task = update s0.task 0 (loaded 1) }

abbrev s2 : System
s2 = record s1 { task = update s1.task 1 (loaded 1) }

abbrev s3 : System
s3 = record {
  next_cid = next_cid_of 1;
  task = update s2.task 0 before_load;
  returned = next_cid_of 1 ∷ [];
}

abbrev s4 : System
s4 = record s3 { task = update s3.task 1 before_load }

abbrev s5 : System
s5 = record s4 { task = update s4.task 1 (loaded (next_cid_of 1)) }

abbrev s6 : System
s6 = record {
  next_cid = next_cid_of (next_cid_of 1);
  task = update s5.task 1 before_load;
  returned = next_cid_of (next_cid_of 1) ∷ next_cid_of 1 ∷ [];
}

two_tasks : Reach s0 s6
two_tasks =
    let r1 : Reach s0 s1 = Reach.next Reach.here (Step.load 0 refl) in
    let r2 : Reach s0 s2 = Reach.next r1 (Step.load 1 refl) in
    let r3 : Reach s0 s3 = Reach.next r2 (Step.exchange 0 1 refl refl) in
    let r4 : Reach s0 s4 =
      Reach.next r3 (Step.retry 1 1 refl (unfold next_cid_of in omega arith)) in
    let r5 : Reach s0 s5 = Reach.next r4 (Step.load 1 refl) in
    Reach.next r5 (Step.exchange 1 (next_cid_of 1) refl refl)

Reach-AllDistinct_example : AllDistinct (next_cid_of (next_cid_of 1) ∷ next_cid_of 1 ∷ [])
Reach-AllDistinct_example =
    Reach-AllDistinct {s = s0} {t = s6} (omega arith, omega arith) refl two_tasks (omega arith)
