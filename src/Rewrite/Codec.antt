-- ===== src/Rewrite/Codec.antt =====
-- What src/rewrite.rs uses of the crate kafka_client: the response types with the fields that the
-- proxy reads or writes, and `decode_frame`, `encode`, `flexible_encode` as parameters.
use kafka_proxy.Base.{ℕ, ◌^◌, ◌<◌, ◌≡◌, Bool, true, false, List, ◌++◌, ◌∷◌, Option, some}
use kafka_proxy.Wire.{Bytes, put_i32}
use kafka_proxy.Rewrite.Header.{response_cid}

-- A Rust string as the codes of its characters.
abbrev pub Text : Type 0
Text = List ℕ

-- MetadataResponseBroker, DescribeClusterBroker (`broker_id`) and Coordinator: `extra` is the rest.
pub record Broker (X : Type 0) : Type 0 where
  pub node_id : ℕ
  pub host : Text
  pub port : ℕ
  pub extra : X

pub record MetadataResponse (X R : Type 0) : Type 0 where
  pub brokers : List (Broker X)
  pub rest : R

pub record DescribeClusterResponse (X R : Type 0) : Type 0 where
  pub brokers : List (Broker X)
  pub rest : R

pub record FindCoordinatorResponse (X R : Type 0) : Type 0 where
  pub node_id : ℕ
  pub host : Text
  pub port : ℕ
  pub coordinators : List (Broker X)
  pub rest : R

-- The traits `Message` and `Response` of one response type. `decode_frame` returns the correlation
-- id of the response header and the body; errors carry nothing that the proxy uses.
pub record Message (R : Type 0) : Type 0 where
  pub decode_frame : Bytes → ℕ → Option (ℕ × R)
  pub is_flexible_version : ℕ → Bool
  pub encode : R → ℕ → Option Bytes
  pub flexible_encode : R → ℕ → Option Bytes

pub record Protocol : Type 1 where
  pub MetadataExtra : Type 0
  pub MetadataRest : Type 0
  pub metadata : Message (MetadataResponse MetadataExtra MetadataRest)
  pub ClusterExtra : Type 0
  pub ClusterRest : Type 0
  pub describe_cluster : Message (DescribeClusterResponse ClusterExtra ClusterRest)
  pub CoordinatorExtra : Type 0
  pub CoordinatorRest : Type 0
  pub find_coordinator : Message (FindCoordinatorResponse CoordinatorExtra CoordinatorRest)

-- What kafka_client documents of a codec: a value that a version can carry (`Carries`) reads back
-- from its frame; a decoded frame begins with the correlation id, and its value is one that the
-- version carries.
pub record RoundTrips {R : Type 0} (c : Message R) (Carries : ℕ → R → Type 0) : Type 0 where
  pub decoded :
      (raw : Bytes) (v cid : ℕ) (r : R)
      → c.decode_frame raw v ≡ some (cid, r)
      → (cid < 2 ^ 32) × Carries v r
  pub leads :
      (raw : Bytes) (v cid : ℕ) (r : R)
      → c.decode_frame raw v ≡ some (cid, r)
      → response_cid raw ≡ some cid
  pub flexible :
      (v cid : ℕ) (r : R) (body : Bytes)
      → cid < 2 ^ 32
      → Carries v r
      → c.is_flexible_version v ≡ true
      → c.flexible_encode r v ≡ some body
      → c.decode_frame (put_i32 cid ++ (0 ∷ body)) v ≡ some (cid, r)
  pub plain :
      (v cid : ℕ) (r : R) (body : Bytes)
      → cid < 2 ^ 32
      → Carries v r
      → c.is_flexible_version v ≡ false
      → c.encode r v ≡ some body
      → c.decode_frame (put_i32 cid ++ body) v ≡ some (cid, r)
