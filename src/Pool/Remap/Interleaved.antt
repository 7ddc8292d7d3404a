-- ===== src/Pool/Remap/Interleaved.antt =====
-- src/pool.rs: the calls of `CidRemap` by any number of tasks at once. `insert` compares the length
-- with the limit in one step, takes its id in a second and stores the entry in a third, and the
-- other tasks may move between these. The compare-exchange loop that gives the id is in
-- Pool/Remap/Alloc; its round that succeeds is a step here. `take` and `fail_conn` change the table
-- by one call of DashMap. The gauge is not in this model.
use kafka_proxy.Base.{
  ℕ, zero, suc, ◌+◌, ◌-◌, ◌≤◌, ◌<◌, ◌≡◌, refl, ap, ◌⊎◌, inl, inr, false, not, List, [], ◌∷◌, arith,
  ◌==◌, leb, length, if◌then◌else◌, Bool-cases,
}
use kafka_proxy.Base.Map.{
  insert as map_insert, remove, retain_values, Distinct, insert-Distinct, remove-Distinct,
  retain_values-Distinct, length-insert-le, length-remove-le, length-retain_values-le,
}
use kafka_proxy.Metrics.{Metrics}
use kafka_proxy.Pool.Remap.{
  CidRemap, RouteEntry, Request, route_entry, with_max_in_flight, alloc_cid_u, insert, in_flight,
}
use kafka_proxy.Pool.Remap.Runs.{Call, inserts, takes, fails}

-- A task is between two calls, or in `insert`: past the test of the length, or with the id it was
-- given.
pub data Pc : Type 0 where
  between_calls : Pc
  admitted : Request → Pc
  allocated : ℕ → Request → Pc

-- The next step of a task: of the call that it begins, or of the `insert` that it is in.
unfoldable pub task_step : Pc → Call → CidRemap → Pc × CidRemap
task_step between_calls (inserts q) r =
    if leb r.max_in_flight (length r.map) then (between_calls, r) else (admitted q, r)
task_step between_calls (takes cid_u) r = (between_calls, record r { map = remove cid_u r.map })
task_step between_calls (fails conn_id) r =
    (between_calls, record r { map = retain_values (λ e. not (e.conn_id == conn_id)) r.map })
task_step (admitted q) c r = let (cid_u, r') = alloc_cid_u r in (allocated cid_u q, r')
task_step (allocated cid_u q) c r =
    (between_calls, record r { map = map_insert cid_u (route_entry q) r.map })

-- The step of the task with the number `i`; with no such task nothing happens.
unfoldable pub turn : ℕ → Call → List Pc × CidRemap → List Pc × CidRemap
turn i c ([], r) = ([], r)
turn zero c (p ∷ ps, r) = let (p', r') = task_step p c r in (p' ∷ ps, r')
turn (suc i) c (p ∷ ps, r) = let (ps', r') = turn i c (ps, r) in (p ∷ ps', r')

-- A schedule: which task moves next, and the call that it begins if it is between two calls.
unfoldable pub turns : List (ℕ × Call) → List Pc × CidRemap → List Pc × CidRemap
turns [] s = s
turns ((i, c) ∷ schedule) s = turns schedule (turn i c s)

-- `n` tasks between two calls.
unfoldable pub idle : ℕ → List Pc
idle zero = []
idle (suc n) = between_calls ∷ idle n

-- With room in the table and no other task between them, three steps are those of `insert`.
pub insert-turns :
    (q : Request) (r : CidRemap) (m : Metrics)
    → leb r.max_in_flight (length r.map) ≡ false
    → turns ((0, inserts q) ∷ (0, inserts q) ∷ (0, inserts q) ∷ []) (idle 1, r)
      ≡ (idle 1, (insert q r m).1)
unfolding turns turn task_step idle insert alloc_cid_u
insert-turns q r m room = rw (room, task_step, insert) refl

-- 1 for a task that is in `insert`.
abbrev weight : Pc → ℕ
weight between_calls = 0
weight (admitted q) = 1
weight (allocated cid_u q) = 1

abbrev inserting : List Pc → ℕ
inserting [] = 0
inserting (p ∷ ps) = weight p + inserting ps

weight-le : (p : Pc) → weight p ≤ 1
weight-le between_calls = omega arith
weight-le (admitted q) = omega arith
weight-le (allocated cid_u q) = omega arith

inserting-le : (ps : List Pc) → inserting ps ≤ length ps
inserting-le [] = omega arith
inserting-le (p ∷ ps) = omega (arith, weight-le p, inserting-le ps)

-- What a step does to the table `r` and to the number `w` of tasks that are in `insert`: it leaves the
-- sum of the two numbers or lowers it, or it has just found the table below its limit.
record Moved (w w' : ℕ) (r r' : CidRemap) : Type 0 where
  distinct : Distinct r.map → Distinct r'.map
  limit : r'.max_in_flight ≡ r.max_in_flight
  sum : (w' + length r'.map ≤ w + length r.map) ⊎ (length r'.map < r'.max_in_flight)

task_step-Moved :
    (p : Pc) (c : Call) (r : CidRemap)
    → Moved (weight p) (weight (task_step p c r).0) r (task_step p c r).1
unfolding task_step alloc_cid_u
task_step-Moved between_calls (inserts q) r =
    elim (Bool-cases (leb r.max_in_flight (length r.map))) [
      | inl full ↦
          rw (full, task_step) (record { distinct = λ d. d; limit = refl; sum = inl (omega arith) })
      | inr room ↦
          rw (room, task_step)
            (record { distinct = λ d. d; limit = refl; sum = inr (ground arith) })
    ]
task_step-Moved between_calls (takes cid_u) r = record {
  distinct = remove-Distinct cid_u r.map;
  limit = refl;
  sum = inl (omega (arith, length-remove-le cid_u r.map));
}
task_step-Moved between_calls (fails conn_id) r = record {
  distinct = retain_values-Distinct _ r.map;
  limit = refl;
  sum = inl (
      omega
        (arith, length-retain_values-le (λ (e : RouteEntry). not (e.conn_id == conn_id)) r.map));
}
task_step-Moved (admitted q) c r = record {
  distinct = λ d. d;
  limit = refl;
  sum = inl (omega arith);
}
task_step-Moved (allocated cid_u q) c r = record {
  distinct = insert-Distinct cid_u (route_entry q) r.map;
  limit = refl;
  sum = inl (omega (arith, length-insert-le cid_u (route_entry q) r.map));
}

turn-length :
    (i : ℕ) (c : Call) (ps : List Pc) (r : CidRemap) → length (turn i c (ps, r)).0 ≡ length ps
unfolding turn
turn-length i c [] r = refl
turn-length zero c (p ∷ ps) r = refl
turn-length (suc i) c (p ∷ ps) r = ap suc (turn-length i c ps r)

turn-Moved :
    (i : ℕ) (c : Call) (ps : List Pc) (r : CidRemap)
    → Moved (inserting ps) (inserting (turn i c (ps, r)).0) r (turn i c (ps, r)).1
unfolding turn
turn-Moved i c [] r = record { distinct = λ d. d; limit = refl; sum = inl (omega arith) }
turn-Moved zero c (p ∷ ps) r =
    let moved = task_step-Moved p c r in
    record {
      distinct = moved.distinct;
      limit = moved.limit;
      sum = elim moved.sum [ inl le ↦ inl (omega arith) | inr below ↦ inr below ];
    }
turn-Moved (suc i) c (p ∷ ps) r =
    let moved = turn-Moved i c ps r in
    record {
      distinct = moved.distinct;
      limit = moved.limit;
      sum = elim moved.sum [ inl le ↦ inl (omega arith) | inr below ↦ inr below ];
    }

-- The bound, with the tasks that have yet to store an entry.
turns-bounded :
    (schedule : List (ℕ × Call)) (ps : List Pc) (r : CidRemap)
    → Distinct r.map
    → inserting ps + length r.map ≤ r.max_in_flight + (length ps - 1)
    → Distinct (turns schedule (ps, r)).1.map
      × (length (turns schedule (ps, r)).1.map ≤ r.max_in_flight + (length ps - 1))
unfolding turns
turns-bounded [] ps r d bound = (d, omega arith)
turns-bounded ((i, c) ∷ schedule) ps r d bound =
    let moved = turn-Moved i c ps r in
    let len = turn-length i c ps r in
    let most = inserting-le (turn i c (ps, r)).0 in
    let now : inserting (turn i c (ps, r)).0 + length (turn i c (ps, r)).1.map
        ≤ (turn i c (ps, r)).1.max_in_flight + (length (turn i c (ps, r)).0 - 1) =
      elim moved.sum [
        | inl le ↦ omega (arith, moved.limit, len)
        | inr below ↦ omega (arith, len, most)
      ] in
    let (distinct, le) =
      turns-bounded schedule (turn i c (ps, r)).0 (turn i c (ps, r)).1 (moved.distinct d) now in
    (distinct, omega (arith, moved.limit, len, le))

idle-inserting : (n : ℕ) → inserting (idle n) ≡ 0
unfolding idle
idle-inserting zero = refl
idle-inserting (suc n) = omega (arith, idle-inserting n)

idle-length : (n : ℕ) → length (idle n) ≡ n
unfolding idle
idle-length zero = refl
idle-length (suc n) = ap suc (idle-length n)

-- However `n` tasks interleave the steps of their calls on a new table, no id is in it twice, and
-- it has at most `n - 1` entries more than its limit: the tasks between the test of the length and
-- the store can overshoot it, and for one task the limit is exact.
pub turns-in_flight :
    (n max : ℕ) (schedule : List (ℕ × Call))
    → Distinct (turns schedule (idle n, with_max_in_flight max)).1.map
      × (in_flight (turns schedule (idle n, with_max_in_flight max)).1 ≤ max + (n - 1))
unfolding in_flight
turns-in_flight n max schedule =
    let limit : (with_max_in_flight max).max_in_flight ≡ max = unfold with_max_in_flight in refl in
    let empty : length (with_max_in_flight max).map ≡ 0 = unfold with_max_in_flight in refl in
    let (distinct, le) =
      turns-bounded schedule (idle n) (with_max_in_flight max) (unfold with_max_in_flight in tt)
        (omega (arith, limit, empty, idle-inserting n)) in
    (distinct, omega (arith, limit, le, idle-length n))
