-- ===== src/Proxy/Listeners.antt =====
-- src/lib.rs: what `build_rewrite_map` returns for a configuration that passes `validate`.
use kafka_proxy.Base.{
  ℕ, ◌≤◌, ◌≡◌, refl, sym, false, List, [], ◌∷◌, Option, none, some, ◌⊎◌, inl, inr, ◌==◌, arith,
  length, is_empty, unwrap_or, All, Option-cases, Bool-cases, Sum-cases,
}
use kafka_proxy.Base.Map.{get, insert, get-insert}
use kafka_proxy.Text.{Text, rsplit_once, parse_unsigned, parse_unsigned-le}
use kafka_proxy.Config.{ProxyConfig, parts_of, advertise_part, host_of, validate}
use kafka_proxy.Config.Validation.{EntryIsValid, validate-valid}
use kafka_proxy.Rewrite.{RewriteMap}
use kafka_proxy.Proxy.{
  SocketAddr, BrokerTarget, MappedListener, u16_max, bind_and_advertise, parse_advertise,
  parse_bind, parse_mapping_entry, find_target, server_host, build_listener, build_loop,
  build_rewrite_map,
}

-- A host that is not empty, and a port that fits.
abbrev pub IsAddress : Text × ℕ → Type 0
IsAddress (host, port) = (is_empty host ≡ false) × (port ≤ u16_max)

bind_and_advertise-part :
    (parts : List Text) (bind : Option Text) (part : Text)
    → bind_and_advertise parts ≡ some (bind, part)
    → advertise_part parts ≡ some part
unfolding bind_and_advertise advertise_part
bind_and_advertise-part [] bind part h = ground arith
bind_and_advertise-part (a ∷ []) bind part h = ground arith
bind_and_advertise-part (a ∷ b ∷ []) bind part h = ground arith
bind_and_advertise-part (a ∷ b ∷ c ∷ []) bind part h = ground arith
bind_and_advertise-part (a ∷ b ∷ c ∷ d ∷ parts) bind part h = ground arith

parse_advertise-IsAddress :
    (part fallback : Text) (host : Text) (port : ℕ)
    → (is_empty (host_of part) ≡ false) ⊎ (is_empty fallback ≡ false)
    → parse_advertise part fallback ≡ inr (host, port)
    → IsAddress (host, port)
unfolding parse_advertise host_of
parse_advertise-IsAddress part fallback host port valid h =
    elim (Option-cases (rsplit_once b':' part)) [
      | inl e ↦ ground arith
      | inr ((before, after), e) ↦ elim (Option-cases (parse_unsigned u16_max after)) [
        | inl q ↦ ground arith
        | inr (n, q) ↦ ground (arith, parse_unsigned-le u16_max after n q)
      ]
    ]

parse_mapping_entry-IsAddress :
    (advertise_host : Option Text) (m bind host : Text) (port : ℕ)
    → EntryIsValid advertise_host m
    → parse_mapping_entry m (unwrap_or advertise_host []) ≡ inr (bind, host, port)
    → IsAddress (host, port)
unfolding parse_mapping_entry
parse_mapping_entry-IsAddress advertise_host m bind host port v h =
    elim (Option-cases (bind_and_advertise (parts_of m))) [
      | inl e ↦ ground arith
      | inr ((b, part), e) ↦
          let same : part ≡ v.part =
            ground (arith, v.last, bind_and_advertise-part (parts_of m) b part e) in
          elim (Sum-cases (parse_advertise part (unwrap_or advertise_host []))) [
            | inl (x, q) ↦ ground arith
            | inr ((host', port'), q) ↦ elim (Sum-cases (parse_bind b port')) [
              | inl (x, r) ↦ ground arith
              | inr (bind', r) ↦
                  let ok =
                    parse_advertise-IsAddress part (unwrap_or advertise_host []) host' port'
                      (rw same v.host) q in
                  ground arith
            ]
          ]
    ]

-- The node has an address in the table.
abbrev pub HasAddress : RewriteMap → ℕ → Type 0
HasAddress table node = (entry : Text × ℕ) × (get node table ≡ some entry) × IsAddress entry

-- The listener is its target's, which is one of the targets, and clients are told of it.
abbrev pub IsListed : RewriteMap → MappedListener → Type 0
IsListed table l = (l.node_id ≡ l.target.node_id) × HasAddress table l.node_id

HasAddress-insert :
    (table : RewriteMap) (k node : ℕ) (entry : Text × ℕ)
    → IsAddress entry
    → (k ≡ node) ⊎ HasAddress table node
    → HasAddress (insert k entry table) node
HasAddress-insert table k node entry a h = elim (Bool-cases (k == node)) [
  | inl e ↦ (entry, ground (arith, get-insert k node entry table), a)
  | inr e ↦ elim h [
    | inl same ↦ ground arith
    | inr (old, q, b) ↦ (old, ground (arith, get-insert k node entry table), b)
  ]
]

module _ (resolve : Text → Option SocketAddr) (advertise_host : Option Text)
    (targets : List BrokerTarget) where
  build_listener_lem :
      (bs m : Text) (entry : Text × ℕ) (l : MappedListener)
      → EntryIsValid advertise_host m
      → build_listener resolve (unwrap_or advertise_host []) targets bs m ≡ inr (entry, l)
      → IsAddress entry × (l.node_id ≡ l.target.node_id)
  unfolding build_listener
  build_listener_lem bs m entry l v h =
      elim (Sum-cases (parse_mapping_entry m (unwrap_or advertise_host []))) [
        | inl (x, e) ↦ ground arith
        | inr ((bind, host, port), e) ↦
            let ok = parse_mapping_entry-IsAddress advertise_host m bind host port v e in
            elim (Option-cases (resolve bs)) [
              | inl q ↦ ground arith
              | inr (addr, q) ↦ elim (Option-cases (find_target addr (server_host bs) targets)) [
                | inl n ↦ ground arith
                | inr (t, n) ↦ ground arith
              ]
            ]
      ]

  build_loop_lem :
      (servers mappings : List Text) (table table' : RewriteMap) (ls : List MappedListener)
      → All (EntryIsValid advertise_host) mappings
      → length mappings ≡ length servers
      → build_loop resolve (unwrap_or advertise_host []) targets servers mappings table
        ≡ inr (table', ls)
      → (length ls ≡ length servers)
        × All (IsListed table') ls
        × ((node : ℕ) → HasAddress table node → HasAddress table' node)
  unfolding build_loop
  build_loop_lem [] mappings table table' ls vs len h =
      let same : table ≡ table' = ground arith in
      let none_left : [] ≡ ls = ground arith in
      (rw (sym none_left) refl, rw (sym none_left) tt, λ node a. rw (sym same) a)
  build_loop_lem (bs ∷ servers) [] table table' ls vs len h = absurd (omega arith)
  build_loop_lem (bs ∷ servers) (m ∷ mappings) table table' ls (v, vs) len h =
      elim (Sum-cases (build_listener resolve (unwrap_or advertise_host []) targets bs m)) [
        | inl (x, e) ↦ ground arith
        | inr ((entry, l), e) ↦
            elim (Sum-cases (
              build_loop resolve (unwrap_or advertise_host []) targets servers mappings
                (insert l.node_id entry table))) [
                  | inl (x, q) ↦ ground arith
                  | inr ((table'', ls'), q) ↦
                      let (address, node) = build_listener_lem bs m entry l v e in
                      let (count, listed, kept) =
                        build_loop_lem servers mappings (insert l.node_id entry table) table'' ls'
                          vs (omega arith) q in
                      let same : table'' ≡ table' = ground arith in
                      let list : l ∷ ls' ≡ ls = ground arith in
                      let here =
                        kept l.node_id
                          (HasAddress-insert table l.node_id l.node_id entry address (inl refl)) in
                      rw (sym same, sym list)
                        (
                          omega arith,
                          ((node, here), listed),
                          λ k a. kept k (HasAddress-insert table l.node_id k entry address (inr a)),
                        )
                ]
      ]

-- For a configuration that passes `validate`, `build_rewrite_map`, when it succeeds, opens one
-- listener for each bootstrap server; each listener has its target's node id, and for that node the
-- table of rewritten addresses has a host that is not empty and a port of 16 bits.
pub build_rewrite_map-validate :
    (resolve : Text → Option SocketAddr) (c : ProxyConfig) (targets : List BrokerTarget)
    (table : RewriteMap) (ls : List MappedListener)
    → validate c ≡ none
    → build_rewrite_map resolve c targets ≡ inr (table, ls)
    → (length ls ≡ length c.bootstrap_servers) × All (IsListed table) ls
unfolding build_rewrite_map
build_rewrite_map-validate resolve c targets table ls valid h =
    let (_, len, _, entries) = validate-valid c valid in
    let (count, listed, _) =
      build_loop_lem resolve c.proxy.advertise_host targets c.bootstrap_servers
        c.proxy.bootstrap_server_mapping [] table ls entries len h in
    (count, listed)
