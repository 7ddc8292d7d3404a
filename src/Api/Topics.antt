-- ===== src/Api/Topics.antt =====
-- src/api.rs: `list_topics` and `create_topic`.
use kafka_proxy.Base.{
  ℕ, ◌+◌, ◌-◌, ◌%◌, ◌^◌, Bool, not, List, [], ◌∷◌, ◌++◌, map, Option, none, some, ◌⊎◌, inl, inr,
  ltb, length, if◌then◌else◌, unwrap_or,
}
use kafka_proxy.Text.{Text, codes}
use kafka_proxy.Api.{
  StatusCode, conflict, internal_server_error, ok, Reply, json, json_error, reply_of,
}

-- kafka_client's description of a topic, with its partitions as they are.
pub record TopicListing (P : Type 0) : Type 0 where
  pub name : Text
  pub internal : Bool
  pub partitions : P

pub record TopicEntry (P : Type 0) : Type 0 where
  pub name : Text
  pub internal : Bool
  pub partitions : P

pub record TopicList (P : Type 0) : Type 0 where
  pub count : ℕ
  pub topics : List (TopicEntry P)

abbrev pub topic_entry : {P : Type 0} → TopicListing P → TopicEntry P
topic_entry t = record { name = t.name; internal = t.internal; partitions = t.partitions }

unfoldable pub list_topics : {P : Type 0} → Text ⊎ List (TopicListing P) → Text ⊎ TopicList P
list_topics (inl e) = inl e
list_topics (inr ts) =
    let entries = map topic_entry ts in inr (record { count = length entries; topics = entries })

abbrev pub list_topics_handler : {P : Type 0} → Text ⊎ List (TopicListing P) → Reply (TopicList P)
unfolding list_topics
list_topics_handler listed = reply_of (list_topics listed)

pub record CreateTopicRequest : Type 0 where
  pub name : Text
  pub num_partitions : Option ℕ
  pub replication_factor : Option ℕ
  pub configs : List (Text × Text)

-- What kafka_client's admin answers, and the text `error code: ..` of its code.
pub record CreateTopicResult : Type 0 where
  pub name : Text
  pub already_exists : Bool
  pub is_success : Bool
  pub error_message : Option Text
  pub error_code : Text

-- What the code uses of kafka_client to create a topic.
pub record TopicClient : Type 1 where
  pub NewTopic : Type 0
  pub new_topic : Text → ℕ → ℕ → NewTopic
  pub with_config : Text → Text → NewTopic → NewTopic
  pub create : NewTopic → Text ⊎ CreateTopicResult

-- `v.unwrap_or(-1).max(-1)` on w-bit patterns.
abbrev pub at_least_minus_one : ℕ → Option ℕ → ℕ
at_least_minus_one w none = 2 ^ w - 1
at_least_minus_one w (some v) =
    if ltb ((v + 2 ^ (w - 1)) % 2 ^ w) (2 ^ (w - 1) - 1) then 2 ^ w - 1 else v

-- `topic '..' already exists`
abbrev pub exists_message : Text → Text
exists_message name = codes "topic '" ++ (name ++ codes "' already exists")

module _ (c : TopicClient) where
  open c use {NewTopic, new_topic, with_config, create}

  unfoldable pub with_configs : List (Text × Text) → NewTopic → NewTopic
  with_configs [] topic = topic
  with_configs ((k, v) ∷ kvs) topic = with_configs kvs (with_config k v topic)

  -- The name of the topic that is created, or a code and a message.
  unfoldable pub create_topic : CreateTopicRequest → (StatusCode × Text) ⊎ Text
  unfolding with_configs
  create_topic req =
      let topic = with_configs req.configs (
        new_topic req.name (at_least_minus_one 32 req.num_partitions)
          (at_least_minus_one 16 req.replication_factor)) in
      elim (create topic) [
        | inl e ↦ inl (internal_server_error, e)
        | inr result ↦
            if result.already_exists
            then inl (conflict, exists_message result.name)
            else if not result.is_success
            then inl (internal_server_error, unwrap_or result.error_message result.error_code)
            else inr result.name
      ]

  unfoldable pub create_topic_handler : CreateTopicRequest → Reply Text
  unfolding create_topic
  create_topic_handler req = elim (create_topic req) [
    | inl (code, msg) ↦ json_error code msg
    | inr name ↦ json ok name
  ]
