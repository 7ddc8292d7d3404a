-- ===== src/Api/Messages/Polls.antt =====
-- src/api.rs: the loop of `latest_messages` ends, and collects wanted records only.
use kafka_proxy.Base.{
  ◌≢◌, ℕ, zero, suc, ◌+◌, ◌*◌, ◌≤◌, ◌<◌, ◌≡◌, refl, sym, true, ◌&&◌, List, [], ◌∷◌, ◌++◌, some, ◌⊎◌,
  inl, inr, arith, ltb, length, retain, is_empty, All, Bool-cases, Option-cases, Sum-cases,
}
use kafka_proxy.Base.Sort.{All-append}
use kafka_proxy.Text.{Text}
use kafka_proxy.Api.Render.{ConsumerRecord}
use kafka_proxy.Api.Messages.{
  Round, Window, Source, LatestMessages, is_wanted, all_partitions_done, poll_loop,
  fetch_log_end_offsets, windows_of, assign_and_seek, reply_messages, latest_messages,
}

module _ (rounds : ℕ → Round) (deadline want_total : ℕ) (ws : List Window) where
  pub poll_loop_total :
      (fuel i k : ℕ) (collected : List ConsumerRecord)
      → deadline ≤ (rounds k).now
      → i ≤ k
      → k < i + fuel
      → (r : Text ⊎ List ConsumerRecord) × (poll_loop rounds deadline want_total ws fuel i collected
          ≡ some r)
  unfolding poll_loop
  poll_loop_total zero i k collected late le lt = absurd (omega arith)
  poll_loop_total (suc fuel) i k collected late le lt =
      elim (Bool-cases (ltb (length collected) want_total && ltb (rounds i).now deadline)) [
        | inr over ↦ (inr collected, rw (over, poll_loop) refl)
        | inl more ↦ elim (Sum-cases (rounds i).reply) [
          | inl (e, q) ↦ (inl e, rw (more, q, poll_loop) refl)
          | inr (batch, q) ↦
              elim (Bool-cases
                (all_partitions_done (collected ++ retain (is_wanted ws) batch) ws)) [
                  | inl done ↦ (
                    inr (collected ++ retain (is_wanted ws) batch),
                    rw (more, q, done, poll_loop) refl,
                  )
                  | inr again ↦
                      let before : i ≢ k = λ e. ground (arith, late) in
                      let (r, h) =
                        poll_loop_total fuel (suc i) k (collected ++ retain (is_wanted ws) batch)
                          late (omega arith) (omega arith) in
                      (r, rw (more, q, again, poll_loop) h)
                ]
        ]
      ]

  retain_wanted :
      (batch : List ConsumerRecord) → All (λ r. is_wanted ws r ≡ true) (retain (is_wanted ws) batch)
  retain_wanted [] = tt
  retain_wanted (r ∷ rs) = elim (Bool-cases (is_wanted ws r)) [
    | inl e ↦ rw e (e, retain_wanted rs)
    | inr e ↦ rw e (retain_wanted rs)
  ]

  pub poll_loop_wanted :
      (fuel i : ℕ) (collected result : List ConsumerRecord)
      → All (λ r. is_wanted ws r ≡ true) collected
      → poll_loop rounds deadline want_total ws fuel i collected ≡ some (inr result)
      → All (λ r. is_wanted ws r ≡ true) result
  unfolding poll_loop
  poll_loop_wanted zero i collected result a h = ground arith
  poll_loop_wanted (suc fuel) i collected result a h =
      elim (Bool-cases (ltb (length collected) want_total && ltb (rounds i).now deadline)) [
        | inr over ↦ let e : collected ≡ result = ground arith in rw (sym e) a
        | inl more ↦ elim (Sum-cases (rounds i).reply) [
          | inl (x, q) ↦ ground arith
          | inr (batch, q) ↦
              let a' =
                All-append (λ r. is_wanted ws r ≡ true) collected (retain (is_wanted ws) batch) a
                  (retain_wanted batch) in
              elim (Bool-cases
                (all_partitions_done (collected ++ retain (is_wanted ws) batch) ws)) [
                  | inl done ↦
                      let e : collected ++ retain (is_wanted ws) batch ≡ result = ground arith in
                      rw (sym e) a'
                  | inr again ↦
                      poll_loop_wanted fuel (suc i) (collected ++ retain (is_wanted ws) batch)
                        result a' (ground arith)
                ]
        ]
      ]

-- The loop is bounded by its deadline: if the clock has reached the deadline in round `k`, whatever
-- the polls give, `latest_messages` returns within `k + 1` rounds.
pub latest_messages_total :
    (s : Source) (topic : Text) (count k : ℕ)
    → s.deadline ≤ (s.rounds k).now
    → (r : Text ⊎ LatestMessages) × (latest_messages s (suc k) topic count ≡ some r)
unfolding latest_messages
latest_messages_total s topic count k late = elim (Option-cases s.refresh) [
  | inr (e, q) ↦ (inl e, ground arith)
  | inl fresh ↦ elim (Sum-cases (fetch_log_end_offsets s.described s.send topic)) [
    | inl (e, q) ↦ (inl e, ground arith)
    | inr (ends, q) ↦ elim (Bool-cases (is_empty (windows_of count ends))) [
      | inl none_used ↦ (inr (record { topic = topic; count = 0; messages = [] }), ground arith)
      | inr used ↦ elim (Option-cases (assign_and_seek s (windows_of count ends))) [
        | inr (e, p) ↦ (inl e, ground arith)
        | inl sought ↦
            let ws = windows_of count ends in
            let (polled, h) =
              poll_loop_total s.rounds s.deadline (count * length ws) ws (suc k) 0 k [] late
                (omega arith) (omega arith) in
            elim (Sum-cases polled) [
              | inl (e, p) ↦ (inl e, ground arith)
              | inr (collected, p) ↦ (inr (reply_messages topic count collected), ground arith)
            ]
      ]
    ]
  ]
]
