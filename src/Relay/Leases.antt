-- ===== src/Relay/Leases.antt =====
-- src/relay.rs: the lease of a pooled connection, and the frame that goes upstream.
use kafka_proxy.Base.{
  ℕ, sym, ◌∙◌, ◌^◌, ◌<◌, ◌≡◌, ◌≢◌, ◌∷◌, ◌++◌, none, some, arith, length, Option-cases, inl, inr,
  ◌⊎◌,
}
use kafka_proxy.Metrics.{inc_frames_downstream, add_bytes_downstream}
use kafka_proxy.Wire.{Bytes, put_i32, slice_from, slice_to}
use kafka_proxy.Rewrite.Header.{request_header}
use kafka_proxy.Pool.Broker.{BrokerPool, Acquired, register_request}
use kafka_proxy.Relay.Pooled.{
  PooledRelay, World, request_of, forwarded, closed, with_cid, with_cid_lem, eight,
  request_header-length, renew_lease, send_request, on_frame, on_header, on_frame-on_header,
}

with_cid_total :
    (cid_u : ℕ) (bytes : Bytes) (header : ℕ × ℕ × ℕ)
    → request_header bytes ≡ some header
    → (frame : Bytes) × (with_cid cid_u bytes ≡ some frame)
unfolding with_cid slice_to slice_from
with_cid_total cid_u bytes header h =
    let ((a, b, c, d, e, f, g, k), rest, q) = eight bytes (request_header-length bytes header h) in
    (a ∷ b ∷ c ∷ d ∷ (put_i32 cid_u ++ rest), rw q)

module _ (w : World) (a : Acquired) (header : ℕ × ℕ × ℕ) (bytes : Bytes) (c : PooledRelay)
    (pool : BrokerPool) (parsed : request_header bytes ≡ some header) where
  send_request_total : send_request w a header bytes c pool ≢ none
  unfolding send_request
  send_request_total h = elim (Option-cases (register_request (request_of w a header c) pool).0) [
    | inl e ↦ ground arith
    | inr (cid_u, e) ↦ let (frame, q) = with_cid_total cid_u bytes header parsed in ground arith
  ]

  send_request_closed :
      (c' : PooledRelay) (pool' : BrokerPool)
      → send_request w a header bytes c pool ≡ some (closed, c', pool')
      → c'.lease ≡ none
  unfolding send_request
  send_request_closed c' pool' h = ground arith

  send_request_forwarded :
      (a' : Acquired) (cid_u : ℕ) (frame : Bytes) (c' : PooledRelay) (pool' : BrokerPool)
      → send_request w a header bytes c pool ≡ some (forwarded a' cid_u frame, c', pool')
      → (a' ≡ a) × (c' ≡ c) × (with_cid cid_u bytes ≡ some frame)
  unfolding send_request
  send_request_forwarded a' cid_u frame c' pool' h = ground arith

renew_lease_cases :
    (w : World) (c : PooledRelay) (pool : BrokerPool)
    → ((renew_lease w c pool).0.lease ≡ none)
      ⊎ ((a : Acquired) × ((renew_lease w c pool).0.lease ≡ some a))
renew_lease_cases w c pool = Option-cases (renew_lease w c pool).0.lease

abbrev received : Bytes → BrokerPool → BrokerPool
received bytes pool = record pool {
  metrics = add_bytes_downstream (length bytes) (inc_frames_downstream pool.metrics);
}

module _ (w : World) (bytes : Bytes) (c : PooledRelay) (pool : BrokerPool) where
  -- The handler never panics on a slice, whatever the client sends and the rest of the system does.
  pub on_frame_total : on_frame w bytes c pool ≢ none
  unfolding on_header
  on_frame_total h' =
      let h : on_header w bytes (request_header bytes) c (received bytes pool) ≡ none =
        sym (on_frame-on_header w bytes c pool) ∙ h' in
      elim (Option-cases (request_header bytes)) [
        | inl e ↦ ground arith
        | inr (header, e) ↦ elim (renew_lease_cases w c (received bytes pool)) [
          | inl n ↦ ground arith
          | inr (a, s) ↦ ground (
            arith,
            send_request_total w a header bytes (renew_lease w c (received bytes pool)).0
                (renew_lease w c (received bytes pool)).1 e,
          )
        ]
      ]

  -- When the handler ends a client's connection it holds no lease any more.
  pub on_frame_closed :
      (c' : PooledRelay) (pool' : BrokerPool)
      → on_frame w bytes c pool ≡ some (closed, c', pool')
      → c'.lease ≡ none
  unfolding on_header
  on_frame_closed c' pool' h' =
      let h : on_header w bytes (request_header bytes) c (received bytes pool)
          ≡ some (closed, c', pool') =
        sym (on_frame-on_header w bytes c pool) ∙ h' in
      elim (Option-cases (request_header bytes)) [
        | inl e ↦ ground arith
        | inr (header, e) ↦ elim (renew_lease_cases w c (received bytes pool)) [
          | inl n ↦ ground arith
          | inr (a, s) ↦
              send_request_closed w a header bytes (renew_lease w c (received bytes pool)).0
                (renew_lease w c (received bytes pool)).1 e c' pool' (ground arith)
        ]
      ]

  -- A frame goes upstream only over the lease that the client holds afterwards. Under an upstream
  -- id of 32 bits it is the client's frame with that id in the header: the api key, the version and
  -- every byte from the ninth on are the client's.
  pub on_frame_forwarded :
      (a : Acquired) (cid_u : ℕ) (frame : Bytes) (c' : PooledRelay) (pool' : BrokerPool)
      → cid_u < 2 ^ 32
      → on_frame w bytes c pool ≡ some (forwarded a cid_u frame, c', pool')
      → (key : ℕ) × (version : ℕ) × (cid_d : ℕ) × (request_header bytes
          ≡ some (key, version, cid_d))
        × (request_header frame ≡ some (key, version, cid_u))
        × (slice_from 8 frame ≡ slice_from 8 bytes)
        × (c'.lease ≡ some a)
  unfolding on_header
  on_frame_forwarded a cid_u frame c' pool' small h' =
      let h : on_header w bytes (request_header bytes) c (received bytes pool)
          ≡ some (forwarded a cid_u frame, c', pool') =
        sym (on_frame-on_header w bytes c pool) ∙ h' in
      elim (Option-cases (request_header bytes)) [
        | inl e ↦ ground arith
        | inr ((key, version, cid_d), e) ↦ elim (renew_lease_cases w c (received bytes pool)) [
          | inl n ↦ ground arith
          | inr (b, s) ↦
              let (same, kept, made) =
                send_request_forwarded w b (key, version, cid_d) bytes
                  (renew_lease w c (received bytes pool)).0
                  (renew_lease w c (received bytes pool)).1 e a cid_u frame c' pool'
                  (ground arith) in
              let (f, q, head, tail) = with_cid_lem cid_u bytes key version cid_d small e in
              (key, version, cid_d, e, ground arith, ground arith, ground arith)
        ]
      ]
