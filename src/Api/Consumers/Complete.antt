-- ===== src/Api/Consumers/Complete.antt =====
-- src/api.rs: the groups and offsets that `list_consumers` reports, described without its functions.
use kafka_proxy.Base.{
  ℕ, ◌+◌, ◌%◌, ◌^◌, ◌≤◌, ◌<◌, ◌≡◌, refl, Bool, true, false, not, List, [], ◌∷◌, map, some, ◌⊎◌, inl,
  inr, arith, ltb, is_empty, retain, All, Bool-cases, Option-cases,
}
use kafka_proxy.Base.Sort.{All-map}
use kafka_proxy.Text.{Text, codes, text_eq}
use kafka_proxy.Api.Consumers.{
  GroupListing, GroupOffset, Admin, PartitionEntry, ConsumerEntry, ConsumerList, is_consumer, is_of,
  partition_entry, total_lag, reads_topic, Reports, list_consumers, list_consumers_groups,
}

-- `ys` are the elements of `xs` that have the property, in order.
abbrev pub Selects {ℓ} : {A : Type ℓ} → (A → Type 0) → List A → List A → Type ℓ
Selects P [] ys = ys ≡ []
Selects {A = A} P (x ∷ xs) ys =
    (P x × (rest : List A) × (ys ≡ x ∷ rest) × Selects P xs rest) ⊎ ((P x → ⊥) × Selects P xs ys)

abbrev Decides {ℓ} : {A : Type ℓ} → (A → Bool) → (A → Type 0) → Type ℓ
Decides {A = A} p P = (x : A) → (p x ≡ true → P x) × (P x → p x ≡ true)

Selects-retain :
    {A : Type 0} (p : A → Bool) (P : A → Type 0)
    → Decides p P
    → (xs : List A) → Selects P xs (retain p xs)
Selects-retain p P d [] = refl
Selects-retain p P d (x ∷ xs) = elim (Bool-cases (p x)) [
  | inl holds ↦ rw holds (inl ((d x).0 holds, retain p xs, refl, Selects-retain p P d xs))
  | inr fails ↦
      rw fails (inr (λ h. absurd (ground (arith, fails, (d x).1 h)), Selects-retain p P d xs))
]

text_eq_refl : (s : Text) → text_eq s s ≡ true
text_eq_refl [] = refl
text_eq_refl (c ∷ s) = ground (arith, text_eq_refl s)

text_eq-true : (s t : Text) → text_eq s t ≡ true → s ≡ t
text_eq-true [] [] h = refl
text_eq-true [] (d ∷ t) h = absurd (ground (arith, h))
text_eq-true (c ∷ s) [] h = absurd (ground (arith, h))
text_eq-true (c ∷ s) (d ∷ t) h =
    let rest : s ≡ t = text_eq-true s t (ground (arith, h)) in
    let first : c ≡ d = ground (arith, h) in rw (rest, first) refl

text_eq-Decides : (t : Text) → Decides (λ (s : Text). text_eq s t) (λ (s : Text). s ≡ t)
text_eq-Decides t s = (text_eq-true s t, λ e. rw e (text_eq_refl t))

-- A group of consumers, by its protocol type.
abbrev pub IsConsumer : GroupListing → Type 0
IsConsumer g = (g.protocol_type ≡ codes "consumer") ⊎ (g.protocol_type ≡ [])

is_empty-true : (s : Text) → is_empty s ≡ true → s ≡ []
is_empty-true [] h = refl
is_empty-true (c ∷ s) h = absurd (ground (arith, h))

is_consumer-Decides : Decides is_consumer IsConsumer
is_consumer-Decides g = (there, back)
  where
    there : is_consumer g ≡ true → IsConsumer g
    there h = elim (Bool-cases (text_eq g.protocol_type (codes "consumer"))) [
      | inl e ↦ inl (text_eq-true g.protocol_type (codes "consumer") e)
      | inr e ↦ inr (is_empty-true g.protocol_type (ground (arith, h, e)))
    ]

    back : IsConsumer g → is_consumer g ≡ true
    back (inl e) = rw e refl
    back (inr e) = rw e refl

-- Some offset is of the topic.
abbrev pub Names : Text → List GroupOffset → Type 0
Names topic [] = ⊥
Names topic (o ∷ os) = (o.topic ≡ topic) ⊎ Names topic os

-- The sum, as an i64, of the lags that are not negative.
abbrev pub Lag : List GroupOffset → ℕ → Type 0
Lag [] n = n ≡ 0
Lag (o ∷ os) n =
    ((o.lag < 2 ^ 63) × (k : ℕ) × Lag os k × (n ≡ (o.lag + k) % 2 ^ 64))
    ⊎ ((2 ^ 63 ≤ o.lag) × Lag os n)

-- Each entry is its offset's.
abbrev pub Shown : List GroupOffset → List PartitionEntry → Type 0
Shown [] [] = Unit {0}
Shown (o ∷ os) (p ∷ ps) =
    (p.partition ≡ o.partition)
    × (p.committed_offset ≡ o.committed_offset)
    × (p.log_end_offset ≡ o.log_end_offset)
    × (p.lag ≡ o.lag)
    × Shown os ps
Shown _ _ = ⊥

Names-retain :
    (topic : Text) (os : List GroupOffset)
    → Names topic os
    → is_empty (retain (is_of topic) os) ≡ false
Names-retain topic (o ∷ os) (inl e) =
    let here : is_of topic o ≡ true = (text_eq-Decides topic o.topic).1 e in rw here refl
Names-retain topic (o ∷ os) (inr more) = elim (Bool-cases (is_of topic o)) [
  | inl here ↦ rw here refl
  | inr other ↦ rw other (Names-retain topic os more)
]
Names-retain topic [] h = absurd h

retain-Names :
    (topic : Text) (os : List GroupOffset)
    → is_empty (retain (is_of topic) os) ≡ false
    → Names topic os
retain-Names topic [] h = absurd (ground (arith, h))
retain-Names topic (o ∷ os) h = elim (Bool-cases (is_of topic o)) [
  | inl holds ↦ inl (text_eq-true o.topic topic holds)
  | inr fails ↦ inr (retain-Names topic os (ground (arith, h, fails)))
]

total_lag-Lag : (os : List GroupOffset) → Lag os (total_lag os)
unfolding total_lag
total_lag-Lag [] = refl
total_lag-Lag (o ∷ os) = elim (Bool-cases (ltb o.lag (2 ^ 63))) [
  | inl small ↦ rw small (inl (ground (arith, small), total_lag os, total_lag-Lag os, refl))
  | inr big ↦ rw big (inr (ground (arith, big), total_lag-Lag os))
]

partition_entry-Shown : (os : List GroupOffset) → Shown os (map partition_entry os)
partition_entry-Shown [] = tt
partition_entry-Shown (o ∷ os) = (refl, refl, refl, refl, partition_entry-Shown os)

module _ (a : Admin) where
  open a use {list_groups, fetch_group_offsets, in_time}

  -- The group's offsets were fetched and name the topic.
  abbrev pub ReadsTopic : Text → Text → Type 0
  ReadsTopic topic gid =
      (os : List GroupOffset) × (fetch_group_offsets gid ≡ some (inr os)) × Names topic os

  -- The partitions are the group's offsets of the topic, and the lag is the sum of theirs.
  abbrev pub Reported : Text → ConsumerEntry → Type 0
  Reported topic c =
      (os : List GroupOffset) × (fetch_group_offsets c.group ≡ some (inr os))
      × (mine : List GroupOffset) × Selects (λ (o : GroupOffset). o.topic ≡ topic) os mine
      × Shown mine c.partitions
      × Lag mine c.total_lag

  reads_topic-Decides : (topic : Text) → Decides (reads_topic a topic) (ReadsTopic topic)
  reads_topic-Decides topic gid = (there, back)
    where
      there : reads_topic a topic gid ≡ true → ReadsTopic topic gid
      there h = elim (Option-cases (fetch_group_offsets gid)) [
        | inl e ↦ ground (arith, h, e)
        | inr (inl x, e) ↦ ground (arith, h, e)
        | inr (inr os, e) ↦
            let q : not (is_empty (retain (is_of topic) os)) ≡ true = rw (e, reads_topic) at h in
            (os, e, retain-Names topic os (ground (arith, q)))
      ]

      back : ReadsTopic topic gid → reads_topic a topic gid ≡ true
      back (os, e, named) = rw (e, Names-retain topic os named, reads_topic) refl

  Reports-Reported : (topic : Text) (c : ConsumerEntry) → Reports a topic c → Reported topic c
  Reports-Reported topic c (os, e, shown, lag) = (
    os,
    e,
    retain (is_of topic) os,
    Selects-retain (is_of topic) (λ (o : GroupOffset). o.topic ≡ topic)
        (λ (o : GroupOffset). text_eq-Decides topic o.topic) os,
    rw shown (partition_entry-Shown (retain (is_of topic) os)),
    rw lag (total_lag-Lag (retain (is_of topic) os)),
  )

  -- The groups that `list_consumers` reports for a topic, when it succeeds in time, are, in the
  -- order listed, those with the protocol type "consumer" or none whose fetched offsets name the
  -- topic; each with its offsets of that topic as they were fetched, and with the sum of the lags
  -- of these that are not negative.
  pub list_consumers_complete :
      (topic : Text) (groups : List GroupListing) (r : ConsumerList)
      → list_groups ≡ inr groups
      → in_time ≡ true
      → list_consumers a topic ≡ inr r
      → (consumers : List GroupListing) × Selects IsConsumer groups consumers
        × Selects
            (ReadsTopic topic)
            (map (λ (g : GroupListing). g.group_id) consumers)
            (map (λ (c : ConsumerEntry). c.group) r.consumers)
        × All (Reported topic) r.consumers
  list_consumers_complete topic groups r listed on h =
      let (same, reports) = list_consumers_groups a topic groups r listed on h in
      (
        retain is_consumer groups,
        Selects-retain is_consumer IsConsumer is_consumer-Decides groups,
        rw same
            (Selects-retain (reads_topic a topic) (ReadsTopic topic) (reads_topic-Decides topic) _),
        All-map (Reports a topic) (Reported topic) (Reports-Reported topic) r.consumers reports,
      )
