-- ===== src/Rewrite/RoundTrip.antt =====
-- src/rewrite.rs: each handler against the codec. The frame that it returns decodes to the same
-- response with the addresses of the mapped nodes replaced.
use kafka_proxy.Base.{
  ℕ, ◌≡◌, refl, ◌⊎◌, inl, inr, true, false, List, none, some, arith, Option-cases, Bool-cases,
}
use kafka_proxy.Base.Map.{get}
use kafka_proxy.Wire.{Bytes, i16_le}
use kafka_proxy.Rewrite.Codec.{
  Broker, MetadataResponse, DescribeClusterResponse, FindCoordinatorResponse, Message, Protocol,
  RoundTrips,
}
use kafka_proxy.Rewrite.Brokers.{
  AllRewritten, SameNodes, rewrite_brokers-AllRewritten, AllRewritten-SameNodes,
}
use kafka_proxy.Rewrite.Frames.{decode-reencode}
use kafka_proxy.Rewrite.{
  RewriteMap, rewrite_brokers, reencode, rewrite_metadata_response,
  rewrite_describe_cluster_response, rewrite_coordinators, rewrite_find_coordinator_response,
}

-- Both frames decode with one correlation id, to responses related by `Same`.
abbrev pub Rewrites : {R : Type 0} → Message R → (R → R → Type 0) → ℕ → Bytes → Bytes → Type 0
Rewrites {R} c Same version raw out =
    (cid : ℕ) × (before : R) × (after : R) × (c.decode_frame raw version ≡ some (cid, before))
    × (c.decode_frame out version ≡ some (cid, after))
    × Same before after

-- The address in a FindCoordinator response: up to version 3 the response's own, from version 4 those
-- of its coordinators.
pub record CoordinatorRewritten {X R : Type 0} (version : ℕ) (m : RewriteMap)
    (r r' : FindCoordinatorResponse X R) : Type 0 where
  pub same_node : r'.node_id ≡ r.node_id
  pub same_rest : r'.rest ≡ r.rest
  pub old_versions :
      i16_le version 3 ≡ true
      → (r'.coordinators ≡ r.coordinators)
        × (((get r.node_id m ≡ none) × (r'.host ≡ r.host) × (r'.port ≡ r.port))
            ⊎ (get r.node_id m ≡ some (r'.host, r'.port)))
  pub new_versions :
      i16_le version 3 ≡ false
      → (r'.host ≡ r.host) × (r'.port ≡ r.port) × AllRewritten m r.coordinators r'.coordinators

module _ (p : Protocol) (version : ℕ) (raw out : Bytes) (m : RewriteMap) where
  open p use {MetadataExtra, MetadataRest, metadata}
  open p use {ClusterExtra, ClusterRest, describe_cluster}
  open p use {CoordinatorExtra, CoordinatorRest, find_coordinator}

  -- A Metadata response that is rewritten decodes, before and after, with one correlation id; each
  -- broker keeps its node id and its other fields, and has its advertised address if it is mapped
  -- and its real one if not; all else in the response is as it was. The codec is taken to read back
  -- what it writes, for responses that differ from a decoded one in addresses only.
  pub rewrite_metadata_response-decode :
      (Carries : ℕ → MetadataResponse MetadataExtra MetadataRest → Type 0)
      → RoundTrips metadata Carries
      → ((v : ℕ) (r : MetadataResponse MetadataExtra MetadataRest)
            (bs : List (Broker MetadataExtra))
          → Carries v r
          → SameNodes r.brokers bs
          → Carries v (record r { brokers = bs }))
      → rewrite_metadata_response p version raw m ≡ some out
      → Rewrites metadata
          (λ before after. AllRewritten m before.brokers after.brokers × (after.rest ≡ before.rest))
          version
          raw
          out
  unfolding rewrite_metadata_response
  rewrite_metadata_response-decode Carries laws edits h =
      elim (Option-cases (metadata.decode_frame raw version)) [
        | inl e ↦ ground arith
        | inr ((cid, r), e) ↦
            let (small, carried) = laws.decoded raw version cid r e in
            let bs = (rewrite_brokers m r.brokers false).0 in
            let all = rewrite_brokers-AllRewritten m r.brokers false in
            let written : reencode metadata version (rewrite_brokers m r.brokers false).1 cid
                  (record r { brokers = bs })
                ≡ some out =
              ground arith in
            (
              cid,
              r,
              record r { brokers = bs },
              e,
              decode-reencode metadata version cid (record r { brokers = bs }) out Carries _ laws
                  small (edits version r bs carried (AllRewritten-SameNodes m r.brokers bs all))
                  written,
              (all, refl),
            )
      ]

  -- A DescribeCluster response that is rewritten decodes, before and after, with one correlation id;
  -- each broker keeps its node id and its other fields, and has its advertised address if it is
  -- mapped and its real one if not; all else in the response is as it was. The codec is taken to
  -- read back what it writes, for responses that differ from a decoded one in addresses only.
  pub rewrite_describe_cluster_response-decode :
      (Carries : ℕ → DescribeClusterResponse ClusterExtra ClusterRest → Type 0)
      → RoundTrips describe_cluster Carries
      → ((v : ℕ) (r : DescribeClusterResponse ClusterExtra ClusterRest)
            (bs : List (Broker ClusterExtra))
          → Carries v r
          → SameNodes r.brokers bs
          → Carries v (record r { brokers = bs }))
      → rewrite_describe_cluster_response p version raw m ≡ some out
      → Rewrites describe_cluster
          (λ before after. AllRewritten m before.brokers after.brokers × (after.rest ≡ before.rest))
          version
          raw
          out
  unfolding rewrite_describe_cluster_response
  rewrite_describe_cluster_response-decode Carries laws edits h =
      elim (Option-cases (describe_cluster.decode_frame raw version)) [
        | inl e ↦ ground arith
        | inr ((cid, r), e) ↦
            let (small, carried) = laws.decoded raw version cid r e in
            let bs = (rewrite_brokers m r.brokers false).0 in
            let all = rewrite_brokers-AllRewritten m r.brokers false in
            let written : reencode describe_cluster version (rewrite_brokers m r.brokers false).1
                  cid (record r { brokers = bs })
                ≡ some out =
              ground arith in
            (
              cid,
              r,
              record r { brokers = bs },
              e,
              decode-reencode describe_cluster version cid (record r { brokers = bs }) out Carries _
                  laws small
                  (edits version r bs carried (AllRewritten-SameNodes m r.brokers bs all)) written,
              (all, refl),
            )
      ]

  rewrite_coordinators-CoordinatorRewritten :
      (r : FindCoordinatorResponse CoordinatorExtra CoordinatorRest)
      → CoordinatorRewritten version m r (rewrite_coordinators p version m r).0
  unfolding rewrite_coordinators
  rewrite_coordinators-CoordinatorRewritten r = elim (Bool-cases (i16_le version 3)) [
    | inl old ↦ elim (Option-cases (get r.node_id m)) [
      | inl e ↦
          rw (old, e, rewrite_coordinators)
            (record {
              same_node = refl;
              same_rest = refl;
              old_versions = λ _. (refl, inl (e, refl, refl));
              new_versions = λ q. cc;
            })
      | inr (a, e) ↦
          rw (old, e, rewrite_coordinators)
            (record {
              same_node = refl;
              same_rest = refl;
              old_versions = λ _. (refl, inr e);
              new_versions = λ q. cc;
            })
    ]
    | inr new ↦
        rw (new, rewrite_coordinators)
          (record {
            same_node = refl;
            same_rest = refl;
            old_versions = λ q. cc;
            new_versions = λ _. (refl, refl, rewrite_brokers-AllRewritten m r.coordinators false);
          })
  ]

  -- A FindCoordinator response that is rewritten decodes, before and after, with one correlation id:
  -- up to version 3 with its own address replaced if its node is mapped, from version 4 with those of
  -- the mapped coordinators replaced, and all else as it was. The codec is taken to read back what it
  -- writes, for responses that differ from a decoded one in addresses only.
  pub rewrite_find_coordinator_response-decode :
      (Carries : ℕ → FindCoordinatorResponse CoordinatorExtra CoordinatorRest → Type 0)
      → RoundTrips find_coordinator Carries
      → ((v : ℕ) (r r' : FindCoordinatorResponse CoordinatorExtra CoordinatorRest)
          → Carries v r
          → CoordinatorRewritten v m r r'
          → Carries v r')
      → rewrite_find_coordinator_response p version raw m ≡ some out
      → Rewrites find_coordinator (CoordinatorRewritten version m) version raw out
  unfolding rewrite_find_coordinator_response
  rewrite_find_coordinator_response-decode Carries laws edits h =
      elim (Option-cases (find_coordinator.decode_frame raw version)) [
        | inl e ↦ ground arith
        | inr ((cid, r), e) ↦
            let (small, carried) = laws.decoded raw version cid r e in
            let r' = (rewrite_coordinators p version m r).0 in
            let rewritten = rewrite_coordinators-CoordinatorRewritten r in
            let written : reencode find_coordinator version (rewrite_coordinators p version m r).1
                  cid r'
                ≡ some out =
              ground arith in
            (
              cid,
              r,
              r',
              e,
              decode-reencode find_coordinator version cid r' out Carries _ laws small
                  (edits version r r' carried rewritten) written,
              rewritten,
            )
      ]
