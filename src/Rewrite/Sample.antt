-- ===== src/Rewrite/Sample.antt =====
-- A codec for tests: one node with its address, in the place of kafka_client's. It shows that the
-- laws asked of a codec can hold.
use kafka_proxy.Base.{
  ℕ, ◌^◌, ◌<◌, ◌≡◌, refl, false, ◌&&◌, List, [], ◌∷◌, ◌++◌, Option, none, some, arith, ltb,
  if◌then◌else◌, ◌>>=◌, Option-cases, Bool-cases, inl, inr,
}
use kafka_proxy.Wire.{Bytes, put_i32, get_i32, slice_from, get_i32-put_i32, slice_from-put_i32}
use kafka_proxy.Rewrite.Header.{response_cid, response_cid-put_i32}
use kafka_proxy.Rewrite.Codec.{
  Text, Broker, MetadataResponse, DescribeClusterResponse, FindCoordinatorResponse, Message,
  Protocol, RoundTrips,
}

abbrev pub Node : Type 0
Node = ℕ × ℕ × Text

unfoldable pub pack_node : Node → Option Bytes
pack_node (n, port, host) =
    if ltb n (2 ^ 32) && ltb port (2 ^ 32) then some (put_i32 n ++ (put_i32 port ++ host)) else none

unfoldable pub unpack_node : Bytes → Option Node
unpack_node body = do (n, rest) ← get_i32 body; (port, host) ← get_i32 rest; some (n, port, host)

unpack_node-pack_node :
    (t : Node) (body : Bytes) → pack_node t ≡ some body → unpack_node body ≡ some t
unfolding pack_node unpack_node
unpack_node-pack_node (n, port, host) body h =
    elim (Bool-cases (ltb n (2 ^ 32) && ltb port (2 ^ 32))) [
      | inl small ↦
          let shape : body ≡ put_i32 n ++ (put_i32 port ++ host) = ground arith in
          ground (arith, get_i32-put_i32 n (put_i32 port ++ host), get_i32-put_i32 port host)
      | inr large ↦ ground arith
    ]

module _ {R : Type 0} (unpack : Node → R) (pack : R → Option Node) where
  unfoldable pub frame_cid : Bytes → Option ℕ
  frame_cid raw = do cid ← response_cid raw; if ltb cid (2 ^ 32) then some cid else none

  unfoldable pub frame_node : Bytes → Option Node
  frame_node raw = do body ← slice_from 4 raw; unpack_node body

  unfoldable pub decode_sample : Bytes → ℕ → Option (ℕ × R)
  unfolding frame_cid frame_node
  decode_sample raw v = do cid ← frame_cid raw; t ← frame_node raw; some (cid, unpack t)

  abbrev pub sample : Message R
  sample = record {
    decode_frame = decode_sample;
    is_flexible_version = λ v. false;
    encode = λ r v. pack r >>= pack_node;
    flexible_encode = λ r v. none;
  }

  frame_cid_lem :
      (raw : Bytes) (cid : ℕ)
      → frame_cid raw ≡ some cid
      → (cid < 2 ^ 32) × (response_cid raw ≡ some cid)
  unfolding frame_cid
  frame_cid_lem raw cid h = ground arith

  decode_sample_cid :
      (raw : Bytes) (v cid : ℕ) (r : R)
      → decode_sample raw v ≡ some (cid, r)
      → frame_cid raw ≡ some cid
  unfolding decode_sample
  decode_sample_cid raw v cid r h = ground arith

  decode_sample-frame :
      (v cid : ℕ) (t : Node) (body : Bytes)
      → cid < 2 ^ 32
      → pack_node t ≡ some body
      → decode_sample (put_i32 cid ++ body) v ≡ some (cid, unpack t)
  unfolding decode_sample
  decode_sample-frame v cid t body small e = ground (
    arith,
    response_cid-put_i32 cid body,
    slice_from-put_i32 cid body,
    unpack_node-pack_node t body e,
  )

  pub sample-RoundTrips :
      ((r : R) (t : Node) → pack r ≡ some t → unpack t ≡ r) → RoundTrips sample (λ _ _. Unit {0})
  sample-RoundTrips same = record {
    decoded = λ raw v cid r e. ((frame_cid_lem raw cid (decode_sample_cid raw v cid r e)).0, tt);
    leads = λ raw v cid r e. (frame_cid_lem raw cid (decode_sample_cid raw v cid r e)).1;
    flexible = λ v cid r body small carried flex e. cc;
    plain = λ v cid r body small carried plain e. plain_lem v cid r body small e;
  }
    where
      plain_lem :
          (v cid : ℕ) (r : R) (body : Bytes)
          → cid < 2 ^ 32
          → (pack r >>= pack_node) ≡ some body
          → decode_sample (put_i32 cid ++ body) v ≡ some (cid, r)
      plain_lem v cid r body small e = elim (Option-cases (pack r)) [
        | inl n ↦ ground arith
        | inr (t, p) ↦
            let packed : pack_node t ≡ some body = ground arith in
            ground (arith, same r t p, decode_sample-frame v cid t body small packed)
      ]

unfoldable pub pack_brokers : List (Broker (Unit {0})) → Option Node
pack_brokers (b ∷ []) = some (b.node_id, b.port, b.host)
pack_brokers _ = none

abbrev pub one_broker : Node → List (Broker (Unit {0}))
one_broker (n, port, host) = record { node_id = n; host = host; port = port; extra = tt } ∷ []

pack_brokers_lem :
    (bs : List (Broker (Unit {0}))) (t : Node) → pack_brokers bs ≡ some t → one_broker t ≡ bs
unfolding pack_brokers
pack_brokers_lem [] t h = cc
pack_brokers_lem (b ∷ []) t h = ground arith
pack_brokers_lem (b ∷ c ∷ bs) t h = cc

unfoldable pub pack_coordinators : ℕ × ℕ × Text → List (Broker (Unit {0})) → Option Node
pack_coordinators t [] = some t
pack_coordinators t (c ∷ cs) = none

abbrev pub sample_protocol : Protocol
sample_protocol = record {
  MetadataExtra = Unit {0};
  MetadataRest = Unit {0};
  metadata =
      sample (λ t. record { brokers = one_broker t; rest = tt }) (λ r. pack_brokers r.brokers);
  ClusterExtra = Unit {0};
  ClusterRest = Unit {0};
  describe_cluster =
      sample (λ t. record { brokers = one_broker t; rest = tt }) (λ r. pack_brokers r.brokers);
  CoordinatorExtra = Unit {0};
  CoordinatorRest = Unit {0};
  find_coordinator =
      sample (λ t. record { node_id = t.0; host = t.2; port = t.1; coordinators = []; rest = tt })
        (λ r. pack_coordinators (r.node_id, r.port, r.host) r.coordinators);
}

pub metadata_laws : RoundTrips sample_protocol.metadata (λ _ _. Unit {0})
unfolding pack_brokers
metadata_laws = sample-RoundTrips _ _ (λ r t e. ap_rest r t e)
  where
    ap_rest :
        (r : MetadataResponse (Unit {0}) (Unit {0})) (t : Node)
        → pack_brokers r.brokers ≡ some t
        → record { brokers = one_broker t; rest = tt } ≡ r
    ap_rest r t e = ground (arith, pack_brokers_lem r.brokers t e)

pub cluster_laws : RoundTrips sample_protocol.describe_cluster (λ _ _. Unit {0})
cluster_laws = sample-RoundTrips _ _ (λ r t e. ap_rest r t e)
  where
    ap_rest :
        (r : DescribeClusterResponse (Unit {0}) (Unit {0})) (t : Node)
        → pack_brokers r.brokers ≡ some t
        → record { brokers = one_broker t; rest = tt } ≡ r
    ap_rest r t e = ground (arith, pack_brokers_lem r.brokers t e)

pack_coordinators_lem :
    (r : FindCoordinatorResponse (Unit {0}) (Unit {0})) (cs : List (Broker (Unit {0}))) (t : Node)
    → r.coordinators ≡ cs
    → pack_coordinators (r.node_id, r.port, r.host) cs ≡ some t
    → record { node_id = t.0; host = t.2; port = t.1; coordinators = []; rest = tt } ≡ r
unfolding pack_coordinators
pack_coordinators_lem r [] t q e = ground arith
pack_coordinators_lem r (c ∷ cs) t q e = cc

pub coordinator_laws : RoundTrips sample_protocol.find_coordinator (λ _ _. Unit {0})
coordinator_laws = sample-RoundTrips _ _ (λ r t e. pack_coordinators_lem r r.coordinators t refl e)
