-- ===== src/Relay/Entries.antt =====
-- src/pool.rs: an entry of the table of requests, and the senders that the table holds.
use kafka_proxy.Base.{
  Bool, ℕ, ap, sym, ◌∙◌, Option-cases, ◌≡◌, ◌≢◌, inl, inr, true, [], ◌∷◌, Option, some, arith, ◌==◌,
  Bool-cases,
}
use kafka_proxy.Base.Map.{Map, remove, retain_values}
use kafka_proxy.Wire.{Bytes}
use kafka_proxy.Metrics.{Metrics}
use kafka_proxy.Rewrite.Codec.{Protocol}
use kafka_proxy.Rewrite.{RewriteMap}
use kafka_proxy.Rewrite.Header.{response_cid}
use kafka_proxy.Pool.Remap.Entries.{Holds}
use kafka_proxy.Pool.Route.{
  Delivery, route_response, on_cid, read_loop_round, read_loop_round-on_cid,
}
use kafka_proxy.Pool.Remap.{CidRemap, RouteEntry, take}
use kafka_proxy.Relay.PooledEnds.{holds_sender}

pub Holds-holds_sender :
    (cid : ℕ) (e : RouteEntry) (m : Map RouteEntry)
    → Holds cid e m
    → holds_sender e.downstream_tx m ≡ true
unfolding holds_sender
Holds-holds_sender cid e ((j, v) ∷ m) (inl (a, b)) =
    let same : v.downstream_tx ≡ e.downstream_tx = ap (λ (x : RouteEntry). x.downstream_tx) b in
    ground arith
Holds-holds_sender cid e ((j, v) ∷ m) (inr h) = ground (arith, Holds-holds_sender cid e m h)
Holds-holds_sender cid e [] h = absurd h

pub Holds-remove :
    (cid i : ℕ) (e : RouteEntry) (m : Map RouteEntry)
    → i ≢ cid
    → Holds cid e m
    → Holds cid e (remove i m)
unfolding remove
Holds-remove cid i e [] ne h = h
Holds-remove cid i e ((j, v) ∷ m) ne h = elim (Bool-cases (j == i)) [
  | inl same ↦ elim h [
    | inl (a, b) ↦ let eq : j ≡ i = ground arith in absurd (ne (cc))
    | inr more ↦ rw same (Holds-remove cid i e m ne more)
  ]
  | inr other ↦ elim h [
    | inl here ↦ rw other (inl here)
    | inr more ↦ rw other (inr (Holds-remove cid i e m ne more))
  ]
]

pub Holds-retain_values :
    (cid : ℕ) (e : RouteEntry) (p : RouteEntry → Bool) (m : Map RouteEntry)
    → p e ≡ true
    → Holds cid e m
    → Holds cid e (retain_values p m)
unfolding retain_values
Holds-retain_values cid e p [] keeps h = h
Holds-retain_values cid e p ((j, v) ∷ m) keeps h = elim (Bool-cases (p v)) [
  | inl kept ↦ elim h [
    | inl here ↦ rw kept (inl here)
    | inr more ↦ rw kept (inr (Holds-retain_values cid e p m keeps more))
  ]
  | inr dropped ↦ elim h [
    | inl (a, b) ↦ let eq : p v ≡ true = rw b keeps in absurd (ground arith)
    | inr more ↦ rw dropped (Holds-retain_values cid e p m keeps more)
  ]
]

take_map : (cid : ℕ) (r : CidRemap) (m : Metrics) → (take cid r m).1.map ≡ remove cid r.map
unfolding take
take_map cid r m = ground arith

-- A round of the read loop leaves the entries under other ids alone.
pub round-Holds :
    (p : Protocol) (map : RewriteMap) (now : ℕ) (bytes : Bytes) (r r' : CidRemap) (m m' : Metrics)
    (d : Option Delivery) (cid : ℕ) (e : RouteEntry)
    → response_cid bytes ≢ some cid
    → read_loop_round p now bytes map r m ≡ some (d, r', m')
    → Holds cid e r.map
    → Holds cid e r'.map
unfolding on_cid
round-Holds p map now bytes r r' m m' d cid e ne h' held =
    let h : on_cid p now bytes (response_cid bytes) map r m ≡ some (d, r', m') =
      sym (read_loop_round-on_cid p now bytes map r m) ∙ h' in
    elim (Option-cases (response_cid bytes)) [
      | inl unknown ↦ let same : r ≡ r' = ground arith in rw (sym same) held
      | inr (j, known) ↦
          let left = Holds-remove cid j e r.map (λ q. ne (known ∙ ap some q)) held in
          let taken : Holds cid e (take j r m).1.map = rw (take_map j r m) left in
          elim (Option-cases (take j r m).0) [
            | inl absent ↦ let same : (take j r m).1 ≡ r' = ground arith in rw (sym same) taken
            | inr (x, found) ↦ elim (Option-cases (route_response p bytes x map)) [
              | inl panicked ↦ absurd (ground arith)
              | inr (out, routed) ↦
                  let same : (take j r m).1 ≡ r' = ground arith in rw (sym same) taken
            ]
          ]
    ]
