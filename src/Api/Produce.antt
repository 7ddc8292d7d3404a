-- ===== src/Api/Produce.antt =====
-- src/api.rs: `send_message`.
use kafka_proxy.Base.{ℕ, Option, none, some, ◌⊎◌}
use kafka_proxy.Wire.{Bytes}
use kafka_proxy.Text.{Text}
use kafka_proxy.Api.{Reply, reply_of}

-- Strings are their UTF-8 bytes; the partition is the pattern of an i32.
pub record ProduceRequest : Type 0 where
  pub value : Bytes
  pub key : Option Bytes
  pub partition : Option ℕ

-- What kafka_client answers, and the JSON object made of it.
pub record RecordMetadata : Type 0 where
  pub topic : Text
  pub partition : ℕ
  pub offset : ℕ
  pub timestamp : ℕ

-- What the code uses of kafka_client to send a record. The producer's settings are fixed.
pub record ProducerClient : Type 1 where
  pub ProducerRecord : Type 0
  pub new_record : Text → Bytes → ProducerRecord
  pub with_key : Bytes → ProducerRecord → ProducerRecord
  pub with_partition : ℕ → ProducerRecord → ProducerRecord
  pub send : ProducerRecord → Text ⊎ RecordMetadata

module _ (c : ProducerClient) where
  open c use {ProducerRecord, new_record, with_key, with_partition, send}

  abbrev pub add_key : Option Bytes → ProducerRecord → ProducerRecord
  add_key none r = r
  add_key (some k) r = with_key k r

  abbrev pub add_partition : Option ℕ → ProducerRecord → ProducerRecord
  add_partition none r = r
  add_partition (some p) r = with_partition p r

  unfoldable pub send_message : Text → ProduceRequest → Text ⊎ RecordMetadata
  send_message topic req =
      send (add_partition req.partition (add_key req.key (new_record topic req.value)))

  abbrev pub send_message_handler : Text → ProduceRequest → Reply RecordMetadata
  unfolding send_message
  send_message_handler topic req = reply_of (send_message topic req)
