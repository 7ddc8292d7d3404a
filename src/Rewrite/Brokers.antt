-- ===== src/Rewrite/Brokers.antt =====
-- src/rewrite.rs: what the loops over brokers and coordinators do, against a relation between the
-- list before and the list after.
use kafka_proxy.Base.{
  ℕ, ◌≡◌, refl, ◌⊎◌, inl, inr, Bool, true, false, List, [], ◌∷◌, none, some, arith, Option-cases,
}
use kafka_proxy.Base.Map.{get}
use kafka_proxy.Rewrite.Codec.{Text, Broker}
use kafka_proxy.Rewrite.{RewriteMap, rewrite_broker, rewrite_brokers}

module _ {X : Type 0} where
  -- The address of a node as clients are to see it: the advertised one, or the real one if the
  -- node is not in the table. Node id and the other fields stay.
  pub record IsRewritten (m : RewriteMap) (b b' : Broker X) : Type 0 where
    pub same_node : b'.node_id ≡ b.node_id
    pub same_extra : b'.extra ≡ b.extra
    pub address :
        ((get b.node_id m ≡ none) × (b'.host ≡ b.host) × (b'.port ≡ b.port))
        ⊎ (get b.node_id m ≡ some (b'.host, b'.port))

  abbrev pub AllRewritten : RewriteMap → List (Broker X) → List (Broker X) → Type 0
  AllRewritten m [] [] = Unit {0}
  AllRewritten m [] (c ∷ cs) = ⊥
  AllRewritten m (b ∷ bs) [] = ⊥
  AllRewritten m (b ∷ bs) (c ∷ cs) = IsRewritten m b c × AllRewritten m bs cs

  -- The same nodes in the same order, with any addresses.
  abbrev pub SameNodes : List (Broker X) → List (Broker X) → Type 0
  SameNodes [] [] = Unit {0}
  SameNodes [] (c ∷ cs) = ⊥
  SameNodes (b ∷ bs) [] = ⊥
  SameNodes (b ∷ bs) (c ∷ cs) = (c.node_id ≡ b.node_id) × (c.extra ≡ b.extra) × SameNodes bs cs

  -- Some node of the list is in the table.
  abbrev pub AnyMapped : RewriteMap → List (Broker X) → Type 0
  AnyMapped m [] = ⊥
  AnyMapped m (b ∷ bs) = ((a : Text × ℕ) × (get b.node_id m ≡ some a)) ⊎ AnyMapped m bs

  rewrite_broker-IsRewritten :
      (m : RewriteMap) (b : Broker X) → IsRewritten m b (rewrite_broker m b).0
  unfolding rewrite_broker
  rewrite_broker-IsRewritten m b = elim (Option-cases (get b.node_id m)) [
    | inl e ↦ record {
      same_node = ground arith;
      same_extra = ground arith;
      address = inl (e, ground arith, ground arith);
    }
    | inr (a, e) ↦ record {
      same_node = ground arith;
      same_extra = ground arith;
      address = inr (ground arith);
    }
  ]

  -- Each entry of the result is the rewritten entry of the input.
  pub rewrite_brokers-AllRewritten :
      (m : RewriteMap) (bs : List (Broker X)) (c : Bool)
      → AllRewritten m bs (rewrite_brokers m bs c).0
  unfolding rewrite_brokers
  rewrite_brokers-AllRewritten m [] c = tt
  rewrite_brokers-AllRewritten m (b ∷ bs) c =
      (rewrite_broker-IsRewritten m b, rewrite_brokers-AllRewritten m bs _)

  pub AllRewritten-SameNodes :
      (m : RewriteMap) (bs cs : List (Broker X)) → AllRewritten m bs cs → SameNodes bs cs
  AllRewritten-SameNodes m [] [] h = tt
  AllRewritten-SameNodes m [] (c ∷ cs) h = absurd h
  AllRewritten-SameNodes m (b ∷ bs) [] h = absurd h
  AllRewritten-SameNodes m (b ∷ bs) (c ∷ cs) h =
      (h.0.same_node, h.0.same_extra, AllRewritten-SameNodes m bs cs h.1)

  rewrite_brokers-true :
      (m : RewriteMap) (bs : List (Broker X)) → (rewrite_brokers m bs true).1 ≡ true
  unfolding rewrite_brokers
  rewrite_brokers-true m [] = refl
  rewrite_brokers-true m (b ∷ bs) = rewrite_brokers-true m bs

  -- The flag is set exactly when some node is in the table.
  pub AnyMapped→changed :
      (m : RewriteMap) (bs : List (Broker X))
      → AnyMapped m bs
      → (rewrite_brokers m bs false).1 ≡ true
  unfolding rewrite_brokers rewrite_broker
  AnyMapped→changed m [] h = absurd h
  AnyMapped→changed m (b ∷ bs) (inl (a, e)) = ground (arith, e, rewrite_brokers-true m bs)
  AnyMapped→changed m (b ∷ bs) (inr h) =
      ground (arith, rewrite_brokers-true m bs, AnyMapped→changed m bs h)

  pub changed→AnyMapped :
      (m : RewriteMap) (bs : List (Broker X))
      → (rewrite_brokers m bs false).1 ≡ true
      → AnyMapped m bs
  unfolding rewrite_brokers rewrite_broker
  changed→AnyMapped m [] h = cc
  changed→AnyMapped m (b ∷ bs) h = elim (Option-cases (get b.node_id m)) [
    | inl e ↦ inr (changed→AnyMapped m bs (ground arith))
    | inr (a, e) ↦ inl (a, e)
  ]
