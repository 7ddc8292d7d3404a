-- ===== src/Pool/Remap/Runs.antt =====
-- src/pool.rs: runs of calls on the table of correlation ids.
use kafka_proxy.Base.{ℕ, suc, ◌+◌, ◌^◌, ◌≤◌, ◌<◌, ◌≡◌, refl, Bool, List, [], ◌∷◌, arith}
use kafka_proxy.Metrics.{Metrics, new as new_metrics}
use kafka_proxy.Pool.Remap.{
  CidRemap, Request, i32_max, with_max_in_flight, alloc_cid_u, insert, take, fail_conn,
}
use kafka_proxy.Pool.Remap.Invariant.{
  IsValid, with_max_in_flight-IsValid, insert-IsValid, take-IsValid, fail_conn-IsValid,
}

-- A call of one of the methods that change the table.
pub data Call : Type 0 where
  inserts : Request → Call
  takes : ℕ → Call
  fails : ℕ → Call

unfoldable pub step : Call → CidRemap × Metrics → CidRemap × Metrics
step (inserts q) (r, m) = ((insert q r m).1, (insert q r m).2)
step (takes cid_u) (r, m) = ((take cid_u r m).1, (take cid_u r m).2)
step (fails conn_id) (r, m) = ((fail_conn conn_id r m).1, (fail_conn conn_id r m).2)

unfoldable pub run : List Call → CidRemap × Metrics → CidRemap × Metrics
run [] s = s
run (c ∷ cs) s = run cs (step c s)

-- How many of the calls are `insert`.
unfoldable pub insertions : List Call → ℕ
insertions [] = 0
insertions (inserts q ∷ cs) = suc (insertions cs)
insertions (takes cid_u ∷ cs) = insertions cs
insertions (fails conn_id ∷ cs) = insertions cs

pub insert-next_cid :
    (q : Request) (r : CidRemap) (m : Metrics)
    → 1 ≤ r.next_cid
    → r.next_cid < i32_max
    → (insert q r m).1.next_cid ≤ r.next_cid + 1
unfolding insert alloc_cid_u
insert-next_cid q r m pos lt = ground arith

pub take-next_cid :
    (cid_u : ℕ) (r : CidRemap) (m : Metrics) → (take cid_u r m).1.next_cid ≡ r.next_cid
unfolding take
take-next_cid cid_u r m = ground arith

pub fail_conn-next_cid :
    (conn_id : ℕ) (r : CidRemap) (m : Metrics) → (fail_conn conn_id r m).1.next_cid ≡ r.next_cid
unfolding fail_conn
fail_conn-next_cid conn_id r m = refl

run-IsValid :
    (cs : List Call) (r : CidRemap) (m : Metrics)
    → IsValid r m
    → r.next_cid + insertions cs ≤ i32_max
    → IsValid (run cs (r, m)).0 (run cs (r, m)).1
unfolding run step insertions
run-IsValid [] r m v few = v
run-IsValid (inserts q ∷ cs) r m v few =
    run-IsValid cs _ _ (insert-IsValid q r m v (omega arith))
      (omega (arith, insert-next_cid q r m v.counter (omega arith)))
run-IsValid (takes cid_u ∷ cs) r m v few =
    run-IsValid cs _ _ (take-IsValid cid_u r m v) (omega (arith, take-next_cid cid_u r m))
run-IsValid (fails conn_id ∷ cs) r m v few =
    run-IsValid cs _ _ (fail_conn-IsValid conn_id r m v)
      (omega (arith, fail_conn-next_cid conn_id r m))

-- A new table stays valid under any calls, up to 2 ^ 31 - 2 of them `insert`.
run-with_max_in_flight-IsValid :
    (cs : List Call) (max : ℕ) (enabled : Bool)
    → max < 2 ^ 63
    → insertions cs < i32_max
    → IsValid
        (run cs (with_max_in_flight max, new_metrics enabled)).0
        (run cs (with_max_in_flight max, new_metrics enabled)).1
run-with_max_in_flight-IsValid cs max enabled small few =
    run-IsValid cs _ _ (with_max_in_flight-IsValid max enabled small)
      (unfold with_max_in_flight in omega arith)
