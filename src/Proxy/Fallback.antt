-- ===== src/Proxy/Fallback.antt =====
-- src/lib.rs: what the targets of `bootstrap_targets` mean for the rewriting when the metadata is
-- empty.
use kafka_proxy.Base.{
  ℕ, suc, ◌+◌, ◌≤◌, ◌<◌, ◌^◌, ◌≡◌, refl, sym, List, [], ◌∷◌, Option, none, some, inl, inr, arith,
  Bool-cases, Option-cases, Sum-cases, length, All, unwrap_or,
}
use kafka_proxy.Base.Map.{get, insert, get-insert}
use kafka_proxy.Text.{Text}
use kafka_proxy.Config.{ProxyConfig}
use kafka_proxy.Wire.{Bytes}
use kafka_proxy.Rewrite.{RewriteMap, rewrite_metadata_response}
use kafka_proxy.Rewrite.Codec.{Protocol, Broker, MetadataResponse}
use kafka_proxy.Rewrite.Brokers.{AnyMapped}
use kafka_proxy.Rewrite.Dispatch.{rewrite_metadata_response_iff}
use kafka_proxy.Proxy.{
  SocketAddr, BrokerTarget, MappedListener, parse_mapping_entry, find_target, is_target,
  server_host, build_listener, build_loop, build_rewrite_map,
}
use kafka_proxy.Proxy.Bootstrap.{fallback_targets, bootstrap_targets, fallback_node_id}

-- Not negative as an i32, as the node ids of a cluster are.
abbrev pub IsReal : ℕ → Type 0
IsReal node = node < 2 ^ 31

abbrev IsFallback : BrokerTarget → Type 0
IsFallback t = 2 ^ 31 ≤ t.node_id

abbrev Unmapped : RewriteMap → Type 0
Unmapped table = (node : ℕ) → IsReal node → get node table ≡ none

fallback_targets-All :
    (resolve : Text → Option SocketAddr) (i : ℕ) (servers : List Text) (ts : List BrokerTarget)
    → i + length servers < 2 ^ 31
    → fallback_targets resolve i servers ≡ inr ts
    → All IsFallback ts
unfolding fallback_targets
fallback_targets-All resolve i [] ts few h = let same : [] ≡ ts = ground arith in rw (sym same) tt
fallback_targets-All resolve i (bs ∷ servers) ts few h = elim (Option-cases (resolve bs)) [
  | inl e ↦ ground arith
  | inr (addr, e) ↦ elim (Sum-cases (fallback_targets resolve (suc i) servers)) [
    | inl (x, q) ↦ ground arith
    | inr (rest, q) ↦
        let t : BrokerTarget = record {
          node_id = fallback_node_id i;
          real_addr = addr;
          real_host = server_host bs;
        } in
        let same : t ∷ rest ≡ ts = ground arith in
        rw (sym same)
          (omega arith, fallback_targets-All resolve (suc i) servers rest (omega arith) q)
  ]
]

find_target-IsFallback :
    (addr : SocketAddr) (host : Text) (ts : List BrokerTarget) (t : BrokerTarget)
    → All IsFallback ts
    → find_target addr host ts ≡ some t
    → IsFallback t
unfolding find_target
find_target-IsFallback addr host [] t fallback h = ground arith
find_target-IsFallback addr host (u ∷ ts) t fallback h = elim (Bool-cases (is_target addr host u)) [
  | inl hit ↦ let same : u ≡ t = ground (arith, hit) in rw (sym same) fallback.0
  | inr miss ↦ find_target-IsFallback addr host ts t fallback.1 (ground (arith, miss))
]

module _ (resolve : Text → Option SocketAddr) (host : Text) (targets : List BrokerTarget)
    (fallback : All IsFallback targets) where
  build_listener-fallback :
      (bs m : Text) (entry : Text × ℕ) (l : MappedListener)
      → build_listener resolve host targets bs m ≡ inr (entry, l)
      → 2 ^ 31 ≤ l.node_id
  unfolding build_listener
  build_listener-fallback bs m entry l h = elim (Sum-cases (parse_mapping_entry m host)) [
    | inl (x, e) ↦ ground arith
    | inr ((bind, advertised, port), e) ↦ elim (Option-cases (resolve bs)) [
      | inl q ↦ ground arith
      | inr (addr, q) ↦ elim (Option-cases (find_target addr (server_host bs) targets)) [
        | inl n ↦ ground arith
        | inr (t, n) ↦
            let found = find_target-IsFallback addr (server_host bs) targets t fallback n in
            ground arith
      ]
    ]
  ]

  insert-Unmapped :
      (k : ℕ) (entry : Text × ℕ) (table : RewriteMap)
      → 2 ^ 31 ≤ k
      → Unmapped table
      → Unmapped (insert k entry table)
  insert-Unmapped k entry table large unmapped node real =
      ground (arith, get-insert k node entry table, unmapped node real)

  build_loop-Unmapped :
      (servers mappings : List Text) (table table' : RewriteMap) (ls : List MappedListener)
      → Unmapped table
      → build_loop resolve host targets servers mappings table ≡ inr (table', ls)
      → Unmapped table'
  unfolding build_loop
  build_loop-Unmapped [] mappings table table' ls unmapped h =
      let same : table ≡ table' = ground arith in rw (sym same) unmapped
  build_loop-Unmapped (bs ∷ servers) [] table table' ls unmapped h =
      let same : table ≡ table' = ground arith in rw (sym same) unmapped
  build_loop-Unmapped (bs ∷ servers) (m ∷ mappings) table table' ls unmapped h =
      elim (Sum-cases (build_listener resolve host targets bs m)) [
        | inl (x, e) ↦ ground arith
        | inr ((entry, l), e) ↦
            elim (Sum-cases
              (build_loop resolve host targets servers mappings (insert l.node_id entry table))) [
                | inl (x, q) ↦ ground arith
                | inr ((table'', ls'), q) ↦
                    let same : table'' ≡ table' = ground arith in
                    rw (sym same) (
                      build_loop-Unmapped servers mappings (insert l.node_id entry table) table''
                        ls'
                        (insert-Unmapped l.node_id entry table
                          (build_listener-fallback bs m entry l e) unmapped)
                        q)
              ]
      ]

no_AnyMapped :
    {X : Type 0} (table : RewriteMap) (bs : List (Broker X))
    → Unmapped table
    → All (λ b. IsReal b.node_id) bs
    → AnyMapped table bs
    → ⊥
no_AnyMapped table (b ∷ bs) unmapped real (inl (a, e)) =
    let absent = unmapped b.node_id real.0 in ground arith
no_AnyMapped table (b ∷ bs) unmapped real (inr more) = no_AnyMapped table bs unmapped real.1 more
no_AnyMapped table [] unmapped real h = absurd h

-- Started without metadata, the proxy rewrites nothing. Let the targets come from the bootstrap
-- servers because no broker was known, and let the table be built from them. Then no Metadata response
-- whose brokers have node ids that are not negative is rewritten: clients are told of the real
-- addresses.
pub rewrite_metadata_response-fallback :
    (resolve : Text → Option SocketAddr) (c : ProxyConfig) (targets : List BrokerTarget)
    (table : RewriteMap) (ls : List MappedListener) (p : Protocol) (version cid : ℕ) (raw : Bytes)
    (r : MetadataResponse p.MetadataExtra p.MetadataRest)
    → length c.bootstrap_servers < 2 ^ 31
    → bootstrap_targets resolve c.bootstrap_servers [] ≡ inr targets
    → build_rewrite_map resolve c targets ≡ inr (table, ls)
    → p.metadata.decode_frame raw version ≡ some (cid, r)
    → All (λ b. IsReal b.node_id) r.brokers
    → rewrite_metadata_response p version raw table ≡ none
unfolding bootstrap_targets build_rewrite_map get
rewrite_metadata_response-fallback resolve c targets table ls p version cid raw r few start build
      decoded real =
    let fallback = fallback_targets-All resolve 0 c.bootstrap_servers targets (omega arith) start in
    let unmapped : Unmapped table =
      build_loop-Unmapped resolve (unwrap_or c.proxy.advertise_host []) targets fallback
        c.bootstrap_servers c.proxy.bootstrap_server_mapping [] table ls (λ node real. refl)
        build in
    elim (Option-cases (rewrite_metadata_response p version raw table)) [
      | inl e ↦ e
      | inr (out, e) ↦ absurd (
          no_AnyMapped table r.brokers unmapped real
            ((rewrite_metadata_response_iff p version cid raw table r decoded).0 (out, e)).0)
    ]
