-- ===== src/Pool/Route.antt =====
-- src/pool.rs: `route_response` and `read_loop`. `none` of `route_response` is a panic of a slice.
use kafka_proxy.Base.{
  ℕ, refl, sym, ◌-◌, ◌≡◌, ◌≢◌, ◌<◌, ◌^◌, ◌∙◌, false, ◌++◌, Option, none, some, unwrap_or, arith,
  Option-cases, inl, inr,
}
use kafka_proxy.Wire.{Bytes, put_i32, slice_from, slice_from-put_i32, slice_from-four}
use kafka_proxy.Metrics.{Metrics, dec_requests_in_flight}
use kafka_proxy.Metrics.Latency.{observe}
use kafka_proxy.Rewrite.Codec.{
  Protocol, RoundTrips, MetadataResponse, DescribeClusterResponse, FindCoordinatorResponse,
}
use kafka_proxy.Rewrite.Header.{
  parse_response_cid, parse_response_cid-returns, response_cid, response_cid-put_i32,
  response_cid-length,
}
use kafka_proxy.Rewrite.Dispatch.{rewrite_response-needs_rewrite, rewrite_response-cid}
use kafka_proxy.Rewrite.{RewriteMap, needs_rewrite, rewrite_response}
use kafka_proxy.Pool.Remap.{CidRemap, RouteEntry, take}

-- A frame handed to a downstream connection: its channel, the bytes.
pub record Delivery : Type 0 where
  pub downstream_tx : ℕ
  pub frame : Bytes

module _ (p : Protocol) where
  unfoldable pub route_response : Bytes → RouteEntry → RewriteMap → Option Bytes
  route_response bytes e m =
      let base = unwrap_or (rewrite_response p e.api_key e.api_version bytes m) bytes in
      elim (slice_from 4 base) [ none ↦ none | some rest ↦ some (put_i32 e.cid_d ++ rest) ]

  -- From the parsed id on. Nothing is sent for a frame with no id, or with an id not in the table.
  unfoldable pub on_cid :
      ℕ
      → Bytes
      → Option ℕ
      → RewriteMap
      → CidRemap
      → Metrics
      → Option (Option Delivery × CidRemap × Metrics)
  unfolding route_response
  on_cid now bytes found map r m = elim found [
    | none ↦ some (none, r, m)
    | some cid_u ↦ elim (take cid_u r m).0 [
      | none ↦ some (none, (take cid_u r m).1, (take cid_u r m).2)
      | some e ↦
          let m₁ = dec_requests_in_flight (take cid_u r m).2 in
          let m₂ = record m₁ { request_hist = observe m₁.request_hist (now - e.started) } in
          elim (route_response bytes e map) [
            | none ↦ none
            | some out ↦ some (
              some (record { downstream_tx = e.downstream_tx; frame = out }),
              (take cid_u r m).1,
              m₂,
            )
          ]
    ]
  ]

  -- A round of the loop. Whether the downstream channel has room is not up to this code; a frame that
  -- does not fit is dropped. The outer `none` is a panic.
  unfoldable pub read_loop_round :
      ℕ → Bytes → RewriteMap → CidRemap → Metrics → Option (Option Delivery × CidRemap × Metrics)
  unfolding on_cid
  read_loop_round now bytes map r m = elim (parse_response_cid bytes) [
    | none ↦ none
    | some found ↦ on_cid now bytes found map r m
  ]

  pub read_loop_round-on_cid :
      (now : ℕ) (bytes : Bytes) (map : RewriteMap) (r : CidRemap) (m : Metrics)
      → read_loop_round now bytes map r m ≡ on_cid now bytes (response_cid bytes) map r m
  unfolding read_loop_round
  read_loop_round-on_cid now bytes map r m =
      rw (parse_response_cid-returns bytes, read_loop_round) refl

  -- A response that needs no rewriting is delivered as it came, but for the correlation id, which
  -- is the client's again.
  pub route_response_plain :
      (cid_u : ℕ) (body : Bytes) (e : RouteEntry) (map : RewriteMap)
      → needs_rewrite e.api_key ≡ false
      → route_response (put_i32 cid_u ++ body) e map ≡ some (put_i32 e.cid_d ++ body)
  unfolding route_response
  route_response_plain cid_u body e map h = ground (
    arith,
    rewrite_response-needs_rewrite p e.api_key e.api_version (put_i32 cid_u ++ body) map h,
    slice_from-put_i32 cid_u body,
  )

  pub read_loop_round_plain :
      (now cid_u : ℕ) (body : Bytes) (e : RouteEntry) (map : RewriteMap) (r : CidRemap)
      (m : Metrics)
      → cid_u < 2 ^ 32
      → (take cid_u r m).0 ≡ some e
      → needs_rewrite e.api_key ≡ false
      → (m' : Metrics) × (read_loop_round now (put_i32 cid_u ++ body) map r m
          ≡ some (
            some (record { downstream_tx = e.downstream_tx; frame = put_i32 e.cid_d ++ body }),
            (take cid_u r m).1,
            m',
          ))
  unfolding on_cid
  read_loop_round_plain now cid_u body e map r m small found plain =
      let m₁ = dec_requests_in_flight (take cid_u r m).2 in
      (
        record m₁ { request_hist = observe m₁.request_hist (now - e.started) },
        rw (
          read_loop_round-on_cid now (put_i32 cid_u ++ body) map r m,
          response_cid-put_i32 cid_u body small,
          found,
          route_response_plain cid_u body e map plain,
          on_cid,
        ),
      )

module _ (p : Protocol)
    {CarriesMetadata : ℕ → MetadataResponse p.MetadataExtra p.MetadataRest → Type 0}
    {CarriesCluster : ℕ → DescribeClusterResponse p.ClusterExtra p.ClusterRest → Type 0}
    {CarriesCoordinator : ℕ → FindCoordinatorResponse p.CoordinatorExtra p.CoordinatorRest → Type 0}
    (metadata_laws : RoundTrips p.metadata CarriesMetadata)
    (cluster_laws : RoundTrips p.describe_cluster CarriesCluster)
    (coordinator_laws : RoundTrips p.find_coordinator CarriesCoordinator) where
  route_response_total :
      (bytes : Bytes) (cid_u : ℕ) (e : RouteEntry) (map : RewriteMap)
      → response_cid bytes ≡ some cid_u
      → (rest : Bytes) × (route_response p bytes e map ≡ some (put_i32 e.cid_d ++ rest))
  unfolding route_response
  route_response_total bytes cid_u e map h =
      elim (Option-cases (rewrite_response p e.api_key e.api_version bytes map)) [
        | inl unchanged ↦
            let (rest, q) = slice_from-four bytes (response_cid-length bytes cid_u h) in
            (rest, ground arith)
        | inr (out, changed) ↦
            let same =
              rewrite_response-cid p metadata_laws cluster_laws coordinator_laws e.api_key
                e.api_version bytes out map changed in
            let (rest, q) = slice_from-four out (response_cid-length out cid_u (same ∙ h)) in
            (rest, ground arith)
      ]

  on_cid_total :
      (now : ℕ) (bytes : Bytes) (map : RewriteMap) (r : CidRemap) (m : Metrics)
      → on_cid p now bytes (response_cid bytes) map r m ≢ none
  unfolding on_cid
  on_cid_total now bytes map r m h = elim (Option-cases (response_cid bytes)) [
    | inl e ↦ ground arith
    | inr (cid_u, e) ↦ elim (Option-cases (take cid_u r m).0) [
      | inl q ↦ ground arith
      | inr (entry, q) ↦ ground (arith, (route_response_total bytes cid_u entry map e).1)
    ]
  ]

  -- The read task never panics on a slice, whatever the length and content of the frame, for a codec
  -- that reads back what it writes and keeps correlation ids in front.
  pub read_loop_round_total :
      (now : ℕ) (bytes : Bytes) (map : RewriteMap) (r : CidRemap) (m : Metrics)
      → read_loop_round p now bytes map r m ≢ none
  read_loop_round_total now bytes map r m h =
      on_cid_total now bytes map r m (sym (read_loop_round-on_cid p now bytes map r m) ∙ h)
