-- ===== src/Rewrite/Dispatch.antt =====
-- src/rewrite.rs: `rewrite_response` over all api keys.
use kafka_proxy.Base.{
  ℕ, ◌^◌, ◌<◌, ◌≡◌, sym, ◌∙◌, ◌↔◌, inl, inr, Bool, true, false, [], ◌∷◌, ◌++◌, none, some, arith,
  Option-cases, Bool-cases,
}
use mathlib.Core.List.{append_assoc}
use kafka_proxy.Wire.{Bytes, put_i32}
use kafka_proxy.Rewrite.Codec.{
  Message, Protocol, RoundTrips, MetadataResponse, DescribeClusterResponse, FindCoordinatorResponse,
}
use kafka_proxy.Rewrite.Brokers.{AnyMapped, AnyMapped→changed, changed→AnyMapped}
use kafka_proxy.Rewrite.Header.{response_cid, response_cid-put_i32}
use kafka_proxy.Rewrite.Frames.{reencode_changed, encode_unsigned_varint-zero}
use kafka_proxy.Rewrite.{
  RewriteMap, needs_rewrite, rewrite_brokers, reencode, response_header, response_body,
  rewrite_metadata_response, rewrite_describe_cluster_response, rewrite_coordinators,
  rewrite_find_coordinator_response, rewrite_response,
}

-- A frame of an api key for which `needs_rewrite` is false is never rewritten.
pub rewrite_response-needs_rewrite :
    (p : Protocol) (api_key version : ℕ) (raw : Bytes) (m : RewriteMap)
    → needs_rewrite api_key ≡ false
    → rewrite_response p api_key version raw m ≡ none
unfolding needs_rewrite rewrite_response
rewrite_response-needs_rewrite p api_key version raw m h = ground arith

-- The header begins with the correlation id in both formats.
response_cid-reencode :
    {R : Type 0} (c : Message R) (version cid : ℕ) (r : R) (changed : Bool) (out : Bytes)
    → cid < 2 ^ 32
    → reencode c version changed cid r ≡ some out
    → response_cid out ≡ some cid
unfolding reencode response_header
response_cid-reencode c version cid r false out small h = cc
response_cid-reencode c version cid r true out small h =
    elim (Option-cases (response_body c version r)) [
      | inl e ↦ ground arith
      | inr (body, e) ↦ elim (Bool-cases (c.is_flexible_version version)) [
        | inl flex ↦
            let frame : out ≡ put_i32 cid ++ ((0 ∷ []) ++ body) = ground (
              arith,
              encode_unsigned_varint-zero (put_i32 cid),
              append_assoc (put_i32 cid) (0 ∷ []) body,
            ) in
            rw frame (response_cid-put_i32 cid _ small)
        | inr plain ↦
            let frame : out ≡ put_i32 cid ++ body = ground arith in
            rw frame (response_cid-put_i32 cid _ small)
      ]
    ]

module _ (p : Protocol)
    {CarriesMetadata : ℕ → MetadataResponse p.MetadataExtra p.MetadataRest → Type 0}
    {CarriesCluster : ℕ → DescribeClusterResponse p.ClusterExtra p.ClusterRest → Type 0}
    {CarriesCoordinator : ℕ → FindCoordinatorResponse p.CoordinatorExtra p.CoordinatorRest → Type 0}
    (metadata_laws : RoundTrips p.metadata CarriesMetadata)
    (cluster_laws : RoundTrips p.describe_cluster CarriesCluster)
    (coordinator_laws : RoundTrips p.find_coordinator CarriesCoordinator) where
  metadata_cid :
      (version : ℕ) (raw out : Bytes) (m : RewriteMap)
      → rewrite_metadata_response p version raw m ≡ some out
      → response_cid out ≡ response_cid raw
  unfolding rewrite_metadata_response
  metadata_cid version raw out m h = elim (Option-cases (p.metadata.decode_frame raw version)) [
    | inl e ↦ ground arith
    | inr ((cid, r), e) ↦
        response_cid-reencode p.metadata version cid
          (record r { brokers = (rewrite_brokers m r.brokers false).0 })
          (rewrite_brokers m r.brokers false).1 out (metadata_laws.decoded raw version cid r e).0
          (ground arith)
        ∙ sym (metadata_laws.leads raw version cid r e)
  ]

  cluster_cid :
      (version : ℕ) (raw out : Bytes) (m : RewriteMap)
      → rewrite_describe_cluster_response p version raw m ≡ some out
      → response_cid out ≡ response_cid raw
  unfolding rewrite_describe_cluster_response
  cluster_cid version raw out m h =
      elim (Option-cases (p.describe_cluster.decode_frame raw version)) [
        | inl e ↦ ground arith
        | inr ((cid, r), e) ↦
            response_cid-reencode p.describe_cluster version cid
              (record r { brokers = (rewrite_brokers m r.brokers false).0 })
              (rewrite_brokers m r.brokers false).1 out (cluster_laws.decoded raw version cid r e).0
              (ground arith)
            ∙ sym (cluster_laws.leads raw version cid r e)
      ]

  coordinator_cid :
      (version : ℕ) (raw out : Bytes) (m : RewriteMap)
      → rewrite_find_coordinator_response p version raw m ≡ some out
      → response_cid out ≡ response_cid raw
  unfolding rewrite_find_coordinator_response
  coordinator_cid version raw out m h =
      elim (Option-cases (p.find_coordinator.decode_frame raw version)) [
        | inl e ↦ ground arith
        | inr ((cid, r), e) ↦
            response_cid-reencode p.find_coordinator version cid
              (rewrite_coordinators p version m r).0 (rewrite_coordinators p version m r).1 out
              (coordinator_laws.decoded raw version cid r e).0 (ground arith)
            ∙ sym (coordinator_laws.leads raw version cid r e)
      ]

  -- Whatever the api key, a rewritten response carries the correlation id of the response that came
  -- in, for a codec that reads back what it writes and keeps correlation ids in front.
  pub rewrite_response-cid :
      (api_key version : ℕ) (raw out : Bytes) (m : RewriteMap)
      → rewrite_response p api_key version raw m ≡ some out
      → response_cid out ≡ response_cid raw
  unfolding rewrite_response
  rewrite_response-cid api_key version raw out m h = ground (
    arith,
    metadata_cid version raw out m,
    cluster_cid version raw out m,
    coordinator_cid version raw out m,
  )

-- A decoded Metadata response is rewritten exactly when one of its brokers is mapped and the changed
-- body can be encoded.
pub rewrite_metadata_response_iff :
    (p : Protocol) (version cid : ℕ) (raw : Bytes) (m : RewriteMap)
    (r : MetadataResponse p.MetadataExtra p.MetadataRest)
    → p.metadata.decode_frame raw version ≡ some (cid, r)
    → ((out : Bytes) × (rewrite_metadata_response p version raw m ≡ some out)) ↔ (
        AnyMapped m r.brokers
        × ((body : Bytes) × (response_body p.metadata version
                (record r { brokers = (rewrite_brokers m r.brokers false).0 })
              ≡ some body)))
unfolding rewrite_metadata_response reencode
rewrite_metadata_response_iff p version cid raw m r e = (there, back)
  where
    after : MetadataResponse p.MetadataExtra p.MetadataRest
    after = record r { brokers = (rewrite_brokers m r.brokers false).0 }

    there :
        ((out : Bytes) × (rewrite_metadata_response p version raw m ≡ some out))
        → AnyMapped m r.brokers
          × ((body : Bytes) × (response_body p.metadata version after ≡ some body))
    there (out, h) =
        let written : reencode p.metadata version (rewrite_brokers m r.brokers false).1 cid after
            ≡ some out =
          ground arith in
        (
          changed→AnyMapped m r.brokers
              (reencode_changed p.metadata version cid after out _ written),
          elim (Option-cases (response_body p.metadata version after)) [
            | inl none_encoded ↦ ground arith
            | inr found ↦ found
          ],
        )

    back :
        AnyMapped m r.brokers
          × ((body : Bytes) × (response_body p.metadata version after ≡ some body))
        → (out : Bytes) × (rewrite_metadata_response p version raw m ≡ some out)
    back (mapped, (body, encoded)) = (
      response_header p.metadata version cid ++ body,
      ground (arith, AnyMapped→changed m r.brokers mapped),
    )
