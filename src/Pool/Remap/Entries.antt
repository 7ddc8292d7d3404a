-- ===== src/Pool/Remap/Entries.antt =====
-- src/pool.rs: the entries that `fail_conn` leaves in the table.
use kafka_proxy.Base.{
  ℕ, ap, ◌≡◌, ◌≢◌, ◌↔◌, refl, ◌⊎◌, inl, inr, Bool, true, false, not, [], ◌∷◌, if◌then◌else◌, arith,
  ◌==◌, Bool-cases,
}
use kafka_proxy.Base.Map.{Map, retain_values}
use kafka_proxy.Metrics.{Metrics}
use kafka_proxy.Pool.Remap.{CidRemap, RouteEntry, fail_conn}

-- The entry stands in the table under the id.
abbrev pub Holds : ℕ → RouteEntry → Map RouteEntry → Type 0
Holds cid e [] = ⊥
Holds cid e ((j, v) ∷ m) = ((j ≡ cid) × (v ≡ e)) ⊎ Holds cid e m

-- The table `m'` has the entries of `m` that are not of the connection, and no others.
abbrev pub Without : ℕ → Map RouteEntry → Map RouteEntry → Type 0
Without conn_id m m' =
    (cid : ℕ) (e : RouteEntry) → Holds cid e m' ↔ (Holds cid e m × (e.conn_id ≢ conn_id))

abbrev other : ℕ → RouteEntry → Bool
other conn_id e = not (e.conn_id == conn_id)

retained_first :
    (conn_id cid j : ℕ) (e v : RouteEntry) (m m' : Map RouteEntry) (b : Bool)
    → other conn_id v ≡ b
    → (Holds cid e m' → Holds cid e m × (e.conn_id ≢ conn_id))
    → Holds cid e (if b then (j, v) ∷ m' else m')
    → Holds cid e ((j, v) ∷ m) × (e.conn_id ≢ conn_id)
retained_first conn_id cid j e v m m' true stays rest (inl (a, b)) =
    let same : v.conn_id ≡ e.conn_id = ap (λ (x : RouteEntry). x.conn_id) b in
    (inl (a, b), λ q. absurd (ground (arith, stays)))
retained_first conn_id cid j e v m m' true stays rest (inr more) =
    let (there, ne) = rest more in (inr there, ne)
retained_first conn_id cid j e v m m' false goes rest more =
    let (there, ne) = rest more in (inr there, ne)

retained :
    (conn_id cid : ℕ) (e : RouteEntry) (m : Map RouteEntry)
    → Holds cid e (retain_values (other conn_id) m)
    → Holds cid e m × (e.conn_id ≢ conn_id)
unfolding retain_values
retained conn_id cid e [] h = absurd h
retained conn_id cid e ((j, v) ∷ m) h =
    retained_first conn_id cid j e v m _ (other conn_id v) refl (retained conn_id cid e m) h

kept :
    (conn_id cid : ℕ) (e : RouteEntry) (m : Map RouteEntry)
    → Holds cid e m × (e.conn_id ≢ conn_id)
    → Holds cid e (retain_values (other conn_id) m)
unfolding retain_values
kept conn_id cid e [] h = absurd (h.0)
kept conn_id cid e ((j, v) ∷ m) (h, ne) = elim (Bool-cases (other conn_id v)) [
  | inl stays ↦ elim h [
    | inl here ↦ rw stays (inl here)
    | inr more ↦ rw stays (inr (kept conn_id cid e m (more, ne)))
  ]
  | inr goes ↦ elim h [
    | inl (a, b) ↦
        let same : v.conn_id ≡ e.conn_id = ap (λ (x : RouteEntry). x.conn_id) b in
        absurd (ground (arith, goes, ne))
    | inr more ↦ rw goes (kept conn_id cid e m (more, ne))
  ]
]

pub fail_conn-Without :
    (conn_id : ℕ) (r : CidRemap) (m : Metrics) → Without conn_id r.map (fail_conn conn_id r m).1.map
unfolding fail_conn
fail_conn-Without conn_id r m cid e = (retained conn_id cid e r.map, kept conn_id cid e r.map)
