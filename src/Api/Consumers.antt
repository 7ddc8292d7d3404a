-- ===== src/Api/Consumers.antt =====
-- src/api.rs: `list_consumers`. `fetch_group_offsets` gives nothing at its timeout of 5 seconds, and
-- `in_time` says whether the offsets of all groups came within 15 seconds.
pub mod Complete
use kafka_proxy.Base.{
  ℕ, ◌+◌, ◌%◌, ◌^◌, ◌≡◌, refl, sym, Bool, true, false, not, ◌||◌, List, [], ◌∷◌, map, Option, none,
  some, ◌⊎◌, inl, inr, arith, ltb, is_empty, retain, if◌then◌else◌, All, Bool-cases, Option-cases,
  Sum-cases,
}
use kafka_proxy.Text.{Text, codes, text_eq}
use kafka_proxy.Api.{Reply, reply_of}

pub record GroupListing : Type 0 where
  pub group_id : Text
  pub protocol_type : Text

pub record Member : Type 0 where
  pub member_id : Text
  pub client_id : Text
  pub client_host : Text

pub record Description : Type 0 where
  pub group_id : Text
  pub state : Text
  pub members : List Member

-- An offset of a partition as kafka_client gives it.
pub record GroupOffset : Type 0 where
  pub topic : Text
  pub partition : ℕ
  pub committed_offset : ℕ
  pub log_end_offset : ℕ
  pub lag : ℕ

pub record Admin : Type 0 where
  pub list_groups : Text ⊎ List GroupListing
  pub describe_groups : List Text → Text ⊎ List Description
  pub fetch_group_offsets : Text → Option (Text ⊎ List GroupOffset)
  pub in_time : Bool

pub record PartitionEntry : Type 0 where
  pub partition : ℕ
  pub committed_offset : ℕ
  pub log_end_offset : ℕ
  pub lag : ℕ

pub record ConsumerEntry : Type 0 where
  pub group : Text
  pub state : Text
  pub members : List Member
  pub partitions : List PartitionEntry
  pub total_lag : ℕ

pub record ConsumerList : Type 0 where
  pub topic : Text
  pub consumers : List ConsumerEntry

abbrev pub is_consumer : GroupListing → Bool
is_consumer g = text_eq g.protocol_type (codes "consumer") || is_empty g.protocol_type

-- Collected into a HashMap by group id, where a later description takes the place of an earlier.
unfoldable pub description_of : Text → List Description → Option Description
description_of gid [] = none
description_of gid (d ∷ ds) = elim (description_of gid ds) [
  | some found ↦ some found
  | none ↦ if text_eq d.group_id gid then some d else none
]

-- The sum of the lags that are not negative, as i64.
unfoldable pub total_lag : List GroupOffset → ℕ
total_lag [] = 0
total_lag (o ∷ os) = if ltb o.lag (2 ^ 63) then (o.lag + total_lag os) % 2 ^ 64 else total_lag os

abbrev pub partition_entry : GroupOffset → PartitionEntry
partition_entry o = record {
  partition = o.partition;
  committed_offset = o.committed_offset;
  log_end_offset = o.log_end_offset;
  lag = o.lag;
}

abbrev pub state_of : Option Description → Text
state_of none = codes "Unknown"
state_of (some d) = d.state

abbrev pub members_of : Option Description → List Member
members_of none = []
members_of (some d) = d.members

abbrev pub is_of : Text → GroupOffset → Bool
is_of topic o = text_eq o.topic topic

abbrev pub consumer_entry : List Description → Text → List GroupOffset → ConsumerEntry
consumer_entry ds gid os = record {
  group = gid;
  state = state_of (description_of gid ds);
  members = members_of (description_of gid ds);
  partitions = map partition_entry os;
  total_lag = total_lag os;
}

module _ (a : Admin) where
  open a use {list_groups, describe_groups, fetch_group_offsets, in_time}

  -- The loop over the groups whose offsets were fetched and that have the topic.
  unfoldable pub consumers_of : List Description → Text → List Text → List ConsumerEntry
  consumers_of ds topic [] = []
  consumers_of ds topic (gid ∷ gids) =
      let rest = consumers_of ds topic gids in
      elim (fetch_group_offsets gid) [
        | none ↦ rest
        | some (inl e) ↦ rest
        | some (inr os) ↦
            let topic_offsets = retain (is_of topic) os in
            if is_empty topic_offsets then rest else consumer_entry ds gid topic_offsets ∷ rest
      ]

  unfoldable pub list_consumers : Text → Text ⊎ ConsumerList
  unfolding consumers_of
  list_consumers topic = elim list_groups [
    | inl e ↦ inl e
    | inr groups ↦
        let consumer_groups = map (λ (g : GroupListing). g.group_id) (retain is_consumer groups) in
        if is_empty consumer_groups
        then inr (record { topic = topic; consumers = [] })
        else elim (describe_groups consumer_groups) [
          | inl e ↦ inl e
          | inr ds ↦ inr (record {
            topic = topic;
            consumers = if in_time then consumers_of ds topic consumer_groups else [];
          })
        ]
  ]

  abbrev pub list_consumers_handler : Text → Reply ConsumerList
  unfolding list_consumers
  list_consumers_handler topic = reply_of (list_consumers topic)

  -- The group's offsets were fetched and name the topic.
  abbrev pub reads_topic : Text → Text → Bool
  reads_topic topic gid = elim (fetch_group_offsets gid) [
    | none ↦ false
    | some (inl e) ↦ false
    | some (inr os) ↦ not (is_empty (retain (is_of topic) os))
  ]

  -- What an entry says of its group.
  abbrev pub Reports : Text → ConsumerEntry → Type 0
  Reports topic c =
      (os : List GroupOffset) × (fetch_group_offsets c.group ≡ some (inr os))
      × (c.partitions ≡ map partition_entry (retain (is_of topic) os))
      × (c.total_lag ≡ total_lag (retain (is_of topic) os))

  consumers_of-group :
      (ds : List Description) (topic : Text) (gids : List Text)
      → map (λ (c : ConsumerEntry). c.group) (consumers_of ds topic gids)
        ≡ retain (reads_topic topic) gids
  unfolding consumers_of
  consumers_of-group ds topic [] = refl
  consumers_of-group ds topic (gid ∷ gids) = elim (Option-cases (fetch_group_offsets gid)) [
    | inl e ↦ ground (arith, consumers_of-group ds topic gids)
    | inr (inl x, e) ↦ ground (arith, consumers_of-group ds topic gids)
    | inr (inr os, e) ↦ ground (arith, consumers_of-group ds topic gids)
  ]

  consumers_of-All :
      (ds : List Description) (topic : Text) (gids : List Text)
      → All (Reports topic) (consumers_of ds topic gids)
  unfolding consumers_of
  consumers_of-All ds topic [] = tt
  consumers_of-All ds topic (gid ∷ gids) =
      let rest = consumers_of-All ds topic gids in
      elim (Option-cases (fetch_group_offsets gid)) [
        | inl e ↦ rw (e, consumers_of) rest
        | inr (inl x, e) ↦ rw (e, consumers_of) rest
        | inr (inr os, e) ↦ elim (Bool-cases (is_empty (retain (is_of topic) os))) [
          | inl q ↦ rw (e, q, consumers_of) rest
          | inr q ↦ rw (e, q, consumers_of) ((os, e, refl, refl), rest)
        ]
      ]

  -- The part of `list_consumers` behind the list of groups.
  described :
      (topic : Text) (gids : List Text) (r : ConsumerList)
      → in_time ≡ true
      → (if is_empty gids
          then inr (record { topic = topic; consumers = [] })
          else elim (describe_groups gids) as (λ x. Text ⊎ ConsumerList) [
            | inl e ↦ inl e
            | inr ds ↦ inr (record {
              topic = topic;
              consumers = if in_time then consumers_of ds topic gids else [];
            })
          ])
        ≡ inr r
      → (map (λ (c : ConsumerEntry). c.group) r.consumers ≡ retain (reads_topic topic) gids)
        × All (Reports topic) r.consumers
  described topic [] r on h = let e : [] ≡ r.consumers = ground arith in rw (sym e) (refl, tt)
  described topic (gid ∷ gids) r on h = elim (Sum-cases (describe_groups (gid ∷ gids))) [
    | inl (x, e) ↦ ground arith
    | inr (ds, e) ↦
        let q : consumers_of ds topic (gid ∷ gids) ≡ r.consumers = ground arith in
        rw (sym q)
          (consumers_of-group ds topic (gid ∷ gids), consumers_of-All ds topic (gid ∷ gids))
  ]

  -- The groups that `list_consumers` reports for a topic, when it succeeds in time, are those groups
  -- of consumers, in the order listed, whose fetched offsets name the topic; each with its offsets of
  -- that topic, and with the sum of the lags of these that are not negative.
  pub list_consumers_groups :
      (topic : Text) (groups : List GroupListing) (r : ConsumerList)
      → list_groups ≡ inr groups
      → in_time ≡ true
      → list_consumers topic ≡ inr r
      → (map (λ (c : ConsumerEntry). c.group) r.consumers
          ≡ retain
              (reads_topic topic)
              (map (λ (g : GroupListing). g.group_id) (retain is_consumer groups)))
        × All (Reports topic) r.consumers
  unfolding list_consumers
  list_consumers_groups topic groups r listed on h =
      described topic (map (λ (g : GroupListing). g.group_id) (retain is_consumer groups)) r on
        (rw listed at h)
