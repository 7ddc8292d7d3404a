-- ===== src/Pool/Remap/Invariant.antt =====
-- src/pool.rs: what holds of the table and of the gauge `cid_map_entries` after any calls.
use kafka_proxy.Base.{
  ℕ, ◌+◌, ◌-◌, ◌^◌, ◌≤◌, ◌<◌, ◌≡◌, refl, inl, inr, Bool, true, not, [], ◌∷◌, none, arith, ◌==◌, leb,
  length, Option-cases, Bool-cases,
}
use kafka_proxy.Base.Map.{
  Map, get, insert as map_insert, remove, retain_values, Distinct, insert-Distinct, remove-Distinct,
  retain_values-Distinct, length-insert_new, length-remove, remove_absent, length-retain_values-le,
}
use kafka_proxy.Metrics.{
  Metrics, inc_cid_map_entries, dec_cid_map_entries, sub_cid_map_entries, new as new_metrics,
}
use kafka_proxy.Pool.Remap.{
  CidRemap, RouteEntry, Request, route_entry, i32_max, with_max_in_flight, next_cid_of, insert,
  take, fail_conn,
}

-- Every key is an id that the counter has passed.
abbrev pub Issued {ℓ} : {V : Type ℓ} → ℕ → Map V → Type 0
Issued n [] = Unit {0}
Issued n ((j, v) ∷ m) = (j ≤ n) × Issued n m

module _ {ℓ} {V : Type ℓ} where
  Issued-none : (n k : ℕ) (m : Map V) → Issued n m → n < k → get k m ≡ none
  unfolding get
  Issued-none n k [] h lt = refl
  Issued-none n k ((j, v) ∷ m) h lt = ground (arith, Issued-none n k m h.1)

  Issued-mono : (n k : ℕ) (m : Map V) → Issued n m → n ≤ k → Issued k m
  Issued-mono n k [] h le = tt
  Issued-mono n k ((j, v) ∷ m) h le = (omega arith, Issued-mono n k m h.1 le)

  Issued-insert : (n k : ℕ) (v : V) (m : Map V) → Issued n m → k ≤ n → Issued n (map_insert k v m)
  unfolding map_insert
  Issued-insert n k v [] h le = (le, tt)
  Issued-insert n k v ((j, w) ∷ m) h le = ground (arith, Issued-insert n k v m h.1 le)

  Issued-remove : (n k : ℕ) (m : Map V) → Issued n m → Issued n (remove k m)
  unfolding remove
  Issued-remove n k [] h = tt
  Issued-remove n k ((j, w) ∷ m) h = ground (arith, Issued-remove n k m h.1)

  Issued-retain_values :
      (n : ℕ) (p : V → Bool) (m : Map V) → Issued n m → Issued n (retain_values p m)
  unfolding retain_values
  Issued-retain_values n p [] h = tt
  Issued-retain_values n p ((j, w) ∷ m) h = ground (arith, Issued-retain_values n p m h.1)

-- While metrics are enabled the gauge shows `n`.
abbrev pub Shows : Metrics → ℕ → Type 0
Shows m n = m.enabled ≡ true → m.cid_map_entries ≡ n

inc-Shows :
    (m : Metrics) (n k : ℕ) → Shows m n → k ≡ n + 1 → n < 2 ^ 63 → Shows (inc_cid_map_entries m) k
unfolding inc_cid_map_entries
inc-Shows m n k h e small = elim (Bool-cases m.enabled) [
  | inl on ↦ rw (on, inc_cid_map_entries) (λ _. omega (arith, h on))
  | inr off ↦ rw (off, inc_cid_map_entries) (λ q. cc)
]

dec-Shows :
    (m : Metrics) (n k : ℕ) → Shows m n → k + 1 ≡ n → n < 2 ^ 63 → Shows (dec_cid_map_entries m) k
unfolding dec_cid_map_entries
dec-Shows m n k h e small = elim (Bool-cases m.enabled) [
  | inl on ↦ rw (on, dec_cid_map_entries) (λ _. omega (arith, h on))
  | inr off ↦ rw (off, dec_cid_map_entries) (λ q. cc)
]

sub-Shows :
    (m : Metrics) (n k : ℕ)
    → Shows m n
    → k ≤ n
    → n < 2 ^ 63
    → Shows (sub_cid_map_entries (n - k) m) k
unfolding sub_cid_map_entries
sub-Shows m n k h le small = elim (Bool-cases m.enabled) [
  | inl on ↦ rw (on, sub_cid_map_entries) (λ _. omega (arith, h on))
  | inr off ↦ rw (off, sub_cid_map_entries) (λ q. cc)
]

-- The table has no key twice and no key that was not issued, is within its limit, and the gauge is
-- its size.
pub record IsValid (r : CidRemap) (m : Metrics) : Type 0 where
  pub distinct : Distinct r.map
  pub issued : Issued r.next_cid r.map
  pub counter : 1 ≤ r.next_cid
  pub bounded : length r.map ≤ r.max_in_flight
  pub small : r.max_in_flight < 2 ^ 63
  pub gauge : Shows m (length r.map)

pub with_max_in_flight-IsValid :
    (max : ℕ) (enabled : Bool)
    → max < 2 ^ 63
    → IsValid (with_max_in_flight max) (new_metrics enabled)
unfolding with_max_in_flight new_metrics
with_max_in_flight-IsValid max enabled h = record {
  distinct = tt;
  issued = tt;
  counter = omega arith;
  bounded = omega arith;
  small = h;
  gauge = λ _. refl;
}

-- Until the counter wraps, the id of a new request is not in the table.
pub insert_fresh :
    (r : CidRemap) (m : Metrics)
    → IsValid r m
    → r.next_cid < i32_max
    → get (next_cid_of r.next_cid) r.map ≡ none
unfolding next_cid_of
insert_fresh r m v lt = Issued-none r.next_cid _ r.map v.issued (ground arith)

pub insert-IsValid :
    (q : Request) (r : CidRemap) (m : Metrics)
    → IsValid r m
    → r.next_cid < i32_max
    → IsValid (insert q r m).1 (insert q r m).2
unfolding insert next_cid_of inc_cid_map_entries
insert-IsValid q r m v lt = elim (Bool-cases (leb r.max_in_flight (length r.map))) [
  | inl full ↦ rw (full, insert) v
  | inr room ↦
      let next : next_cid_of r.next_cid ≡ r.next_cid + 1 = unfold next_cid_of in ground arith in
      let grows =
        length-insert_new (next_cid_of r.next_cid) (route_entry q) r.map (insert_fresh r m v lt) in
      rw (room, insert)
        (record {
          distinct = insert-Distinct (next_cid_of r.next_cid) (route_entry q) r.map v.distinct;
          issued =
              Issued-insert (next_cid_of r.next_cid) (next_cid_of r.next_cid) (route_entry q) r.map
                (Issued-mono r.next_cid (next_cid_of r.next_cid) r.map v.issued (omega arith))
                (omega arith);
          counter = omega arith;
          bounded = ground arith;
          small = v.small;
          gauge = inc-Shows m (length r.map) _ v.gauge grows (ground arith);
        })
]

pub take-IsValid :
    (cid_u : ℕ) (r : CidRemap) (m : Metrics)
    → IsValid r m
    → IsValid (take cid_u r m).1 (take cid_u r m).2
unfolding take
take-IsValid cid_u r m v = elim (Option-cases (get cid_u r.map)) [
  | inl e ↦ rw (e, take, remove_absent cid_u r.map e) v
  | inr (entry, e) ↦
      let shrinks = length-remove cid_u r.map entry v.distinct e in
      rw (e, take)
        (record {
          distinct = remove-Distinct cid_u r.map v.distinct;
          issued = Issued-remove r.next_cid cid_u r.map v.issued;
          counter = v.counter;
          bounded = ground arith;
          small = v.small;
          gauge = dec-Shows m (length r.map) _ v.gauge shrinks (ground arith);
        })
]

pub fail_conn-IsValid :
    (conn_id : ℕ) (r : CidRemap) (m : Metrics)
    → IsValid r m
    → IsValid (fail_conn conn_id r m).1 (fail_conn conn_id r m).2
unfolding fail_conn
fail_conn-IsValid conn_id r m v =
    let le = length-retain_values-le (λ (e : RouteEntry). not (e.conn_id == conn_id)) r.map in
    record {
      distinct = retain_values-Distinct _ r.map v.distinct;
      issued = Issued-retain_values r.next_cid _ r.map v.issued;
      counter = v.counter;
      bounded = omega arith;
      small = v.small;
      gauge = sub-Shows m (length r.map) _ v.gauge le (omega arith);
    }
