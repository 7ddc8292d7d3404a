-- ===== src/Rewrite.antt =====
-- src/rewrite.rs: the table of advertised addresses, and the rewriting of Metadata,
-- DescribeCluster and FindCoordinator responses.
pub mod Varint
pub mod Header
pub mod Codec
pub mod Brokers
pub mod Frames
pub mod RoundTrip
pub mod Dispatch
pub mod Sample
mod Tests
use kafka_proxy.Base.{
  ℕ, ◌+◌, ◌≡◌, Bool, true, false, not, ◌||◌, List, [], ◌∷◌, ◌++◌, Option, none, some, ◌==◌,
  if◌then◌else◌,
}
use kafka_proxy.Base.Map.{Map, get}
use kafka_proxy.Wire.{Bytes, put_i32, i16_le}
use Varint.{encode_unsigned_varint}
use Codec.{
  Text, Broker, MetadataResponse, DescribeClusterResponse, FindCoordinatorResponse, Message,
  Protocol,
}

-- `RewriteMap::node_ports`: node id to (advertised host, downstream port).
abbrev pub RewriteMap : Type 0
RewriteMap = Map (Text × ℕ)

abbrev pub api_key_metadata : ℕ
api_key_metadata = 3

abbrev pub api_key_describe_cluster : ℕ
api_key_describe_cluster = 60

abbrev pub api_key_find_coordinator : ℕ
api_key_find_coordinator = 10

unfoldable pub needs_rewrite : ℕ → Bool
needs_rewrite k =
    k == api_key_metadata || k == api_key_describe_cluster || k == api_key_find_coordinator

module _ {X : Type 0} where
  -- The loop's body: the entry after it, and whether it was in the table.
  pub rewrite_broker : RewriteMap → Broker X → Broker X × Bool
  rewrite_broker m b = elim (get b.node_id m) [
    | none ↦ (b, false)
    | some (host, port) ↦ (record b { host = host; port = port }, true)
  ]

  -- `for b in &mut resp.brokers`, with the flag `changed`.
  pub rewrite_brokers : RewriteMap → List (Broker X) → Bool → List (Broker X) × Bool
  rewrite_brokers m [] changed = ([], changed)
  rewrite_brokers m (b ∷ bs) changed =
      let (b', hit) = rewrite_broker m b in
      let (bs', c) = rewrite_brokers m bs (changed || hit) in (b' ∷ bs', c)

module _ {R : Type 0} (codec : Message R) where
  open codec use {is_flexible_version, flexible_encode, encode}

  -- The response header: the correlation id, and no tagged fields in a flexible version.
  pub response_header : ℕ → ℕ → Bytes
  response_header version cid =
      if is_flexible_version version then encode_unsigned_varint (put_i32 cid) 0 else put_i32 cid

  pub response_body : ℕ → R → Option Bytes
  response_body version resp =
      if is_flexible_version version then flexible_encode resp version else encode resp version

  -- The end of each handler: nothing if no entry changed or the body is not encoded.
  pub reencode : ℕ → Bool → ℕ → R → Option Bytes
  reencode version changed cid resp =
      if not changed then none else elim (response_body version resp) [
        | none ↦ none
        | some body ↦ some (response_header version cid ++ body)
      ]

module _ (p : Protocol) where
  open p use {MetadataExtra, MetadataRest, metadata}
  open p use {ClusterExtra, ClusterRest, describe_cluster}
  open p use {CoordinatorExtra, CoordinatorRest, find_coordinator}

  pub rewrite_metadata_response : ℕ → Bytes → RewriteMap → Option Bytes
  rewrite_metadata_response version raw m = elim (metadata.decode_frame raw version) [
    | none ↦ none
    | some (cid, resp) ↦
        let (brokers, changed) = rewrite_brokers m resp.brokers false in
        reencode metadata version changed cid (record resp { brokers = brokers })
  ]

  pub rewrite_describe_cluster_response : ℕ → Bytes → RewriteMap → Option Bytes
  rewrite_describe_cluster_response version raw m =
      elim (describe_cluster.decode_frame raw version) [
        | none ↦ none
        | some (cid, resp) ↦
            let (brokers, changed) = rewrite_brokers m resp.brokers false in
            reencode describe_cluster version changed cid (record resp { brokers = brokers })
      ]

  -- Up to version 3 the address stands in the response itself, from version 4 in `coordinators`.
  pub rewrite_coordinators :
      ℕ
      → RewriteMap
      → FindCoordinatorResponse CoordinatorExtra CoordinatorRest
      → FindCoordinatorResponse CoordinatorExtra CoordinatorRest × Bool
  rewrite_coordinators version m resp =
      if i16_le version 3
      then elim (get resp.node_id m) [
        | none ↦ (resp, false)
        | some (host, port) ↦ (record resp { host = host; port = port }, true)
      ]
      else let (cs, changed) = rewrite_brokers m resp.coordinators false in
        (record resp { coordinators = cs }, changed)

  pub rewrite_find_coordinator_response : ℕ → Bytes → RewriteMap → Option Bytes
  rewrite_find_coordinator_response version raw m =
      elim (find_coordinator.decode_frame raw version) [
        | none ↦ none
        | some (cid, resp) ↦
            let (resp', changed) = rewrite_coordinators version m resp in
            reencode find_coordinator version changed cid resp'
      ]

  pub rewrite_response : ℕ → ℕ → Bytes → RewriteMap → Option Bytes
  rewrite_response api_key version raw m =
      if api_key == api_key_metadata
      then rewrite_metadata_response version raw m
      else if api_key == api_key_describe_cluster
      then rewrite_describe_cluster_response version raw m
      else if api_key == api_key_find_coordinator
      then rewrite_find_coordinator_response version raw m
      else none
