-- ===== src/Api/Tests.antt =====
-- Runs and witnesses for the web endpoints.
use kafka_proxy.Base.{
  ℕ, ◌-◌, ◌^◌, ◌≤◌, ◌≡◌, refl, true, false, List, [], ◌∷◌, map, none, some, ◌⊎◌, inr, arith, length,
  retain, All,
}
use kafka_proxy.Base.Sort.{sort_by, IsSorted}
use kafka_proxy.Base.Map.{get, insert}
use kafka_proxy.Text.{Text, codes}
use kafka_proxy.Api.{json_error, conflict}
use kafka_proxy.Api.Topics.{TopicClient, with_configs, create_topic, create_topic_handler}
use kafka_proxy.Api.Consumers.{
  Admin, GroupListing, GroupOffset, ConsumerEntry, ConsumerList, description_of, total_lag,
  consumers_of, list_consumers,
}
use kafka_proxy.Api.Consumers.Complete.{
  Selects, IsConsumer, ReadsTopic, Reported, list_consumers_complete,
}
use kafka_proxy.Api.Render.{ConsumerRecord, utf8_from, hex, bytes_to_text, record_to_json}
use kafka_proxy.Api.Messages.{
  Source, End, LatestMessages, ends_of_partitions, ends_of_topics, fetch_log_end_offsets,
  windows_of, is_wanted, all_partitions_done, poll_loop, push_record, group_by_partition, recent,
  messages_of, message_le, reply_messages, seek_all, latest_messages,
}
use kafka_proxy.Api.Messages.Polls.{latest_messages_total}
use kafka_proxy.Api.Messages.Windows.{at_partition, IsShown, IsWindow, latest_messages_windows}

-- A client that answers that the topic is there already.
abbrev refusing : TopicClient
refusing = record {
  NewTopic = Text × ℕ × ℕ;
  new_topic = λ name parts repl. (name, parts, repl);
  with_config = λ k v t. t;
  create = λ t. inr (record {
    name = t.0;
    already_exists = true;
    is_success = false;
    error_message = none;
    error_code = codes "error code: 36";
  });
}

conflict_run :
    create_topic_handler refusing (record {
      name = codes "a";
      num_partitions = none;
      replication_factor = some 3;
      configs = [];
    })
    ≡ json_error conflict (codes "topic 'a' already exists")
unfolding create_topic_handler create_topic with_configs
conflict_run = refl

-- Valid UTF-8 of two bytes, and two bytes that are not.
text_run :
    (bytes_to_text (0xc3 ∷ 0xa9 ∷ []) ≡ 0xc3 ∷ 0xa9 ∷ [])
    × (bytes_to_text (0xff ∷ 0xfe ∷ []) ≡ codes "0xfffe")
unfolding bytes_to_text utf8_from hex
text_run = (refl, refl)

abbrev binary : List ℕ
binary = 0xff ∷ 0xfe ∷ []

-- A consumer group with offsets of the topic "t", and a group of another protocol.
abbrev listed : List GroupListing
listed =
    record { group_id = codes "g"; protocol_type = codes "consumer" }
    ∷ record { group_id = codes "h"; protocol_type = codes "connect" }
    ∷ []

-- A lag of 5, and one that is not known.
abbrev offsets : List GroupOffset
offsets =
    record { topic = codes "t"; partition = 0; committed_offset = 10; log_end_offset = 15; lag = 5 }
    ∷ record {
      topic = codes "t";
      partition = 1;
      committed_offset = 0;
      log_end_offset = 9;
      lag = 2 ^ 64 - 1;
    }
    ∷ []

abbrev admin : Admin
admin = record {
  list_groups = inr listed;
  describe_groups = λ ids. inr [];
  fetch_group_offsets = λ gid. some (inr offsets);
  in_time = true;
}

abbrev reported : ConsumerList
reported = record {
  topic = codes "t";
  consumers =
      record {
        group = codes "g";
        state = codes "Unknown";
        members = [];
        partitions =
            record { partition = 0; committed_offset = 10; log_end_offset = 15; lag = 5 }
            ∷ record { partition = 1; committed_offset = 0; log_end_offset = 9; lag = 2 ^ 64 - 1 }
            ∷ [];
        total_lag = 5;
      }
      ∷ [];
}

consumers_run : list_consumers admin (codes "t") ≡ inr reported
unfolding list_consumers consumers_of description_of total_lag
consumers_run = refl

list_consumers_complete_example :
    (consumers : List GroupListing) × Selects IsConsumer listed consumers
    × Selects
        (ReadsTopic admin (codes "t"))
        (map (λ (g : GroupListing). g.group_id) consumers)
        (map (λ (c : ConsumerEntry). c.group) reported.consumers)
    × All (Reported admin (codes "t")) reported.consumers
list_consumers_complete_example =
    list_consumers_complete admin (codes "t") listed reported refl refl consumers_run

-- Two records of a partition that ends at 12, and a clock that is past the deadline in round 1.
abbrev record_at : ℕ → ConsumerRecord
record_at n = record {
  partition = 0;
  offset = n;
  timestamp = 0;
  key = none;
  value = codes "v";
  headers = [];
}

abbrev source : Source
source = record {
  refresh = none;
  described = inr ((0 ∷ []) ∷ []);
  send = λ ps. inr (
      record {
        name = codes "t";
        partitions = record { partition_index = 0; error_code = 0; offset = 12 } ∷ [];
      }
      ∷ []);
  assign = λ ps. none;
  seek = λ p o. none;
  rounds = λ i. record { now = i; reply = inr (record_at 11 ∷ record_at 3 ∷ record_at 10 ∷ []) };
  deadline = 1;
}

latest_run :
    latest_messages source 9 (codes "t") 2
    ≡ some (
        inr (record {
          topic = codes "t";
          count = 2;
          messages = record_to_json (record_at 10) ∷ record_to_json (record_at 11) ∷ [];
        }))
unfolding latest_messages fetch_log_end_offsets ends_of_topics ends_of_partitions windows_of sort_by
    seek_all poll_loop is_wanted all_partitions_done reply_messages group_by_partition push_record
    messages_of recent record_to_json get insert
latest_run = refl

latest_messages_total_example :
    (r : Text ⊎ LatestMessages) × (latest_messages source 2 (codes "t") 2 ≡ some r)
latest_messages_total_example = latest_messages_total source (codes "t") 2 1 (omega arith)

abbrev latest : LatestMessages
latest = record {
  topic = codes "t";
  count = 2;
  messages = record_to_json (record_at 10) ∷ record_to_json (record_at 11) ∷ [];
}

latest_messages_windows_example :
    (ends : List End) × (fetch_log_end_offsets source.described source.send (codes "t") ≡ inr ends)
    × All (IsWindow 2) (windows_of 2 ends)
    × (latest.count ≡ length latest.messages)
    × IsSorted message_le latest.messages
    × All (IsShown (windows_of 2 ends)) latest.messages
    × (length (retain (at_partition 0) latest.messages) ≤ 2)
latest_messages_windows_example =
    latest_messages_windows source 9 (codes "t") 2 0 latest (omega arith) latest_run
