-- ===== src/Api/Messages.antt =====
-- src/api.rs: `fetch_log_end_offsets`, `latest_messages` and `all_partitions_done`. The polls of the
-- consumer are a function of the loop's round. The limit of three requests at once is left out.
pub mod Polls
pub mod Groups
pub mod Windows
use kafka_proxy.Base.{
  concat, ℕ, zero, suc, ◌+◌, ◌-◌, ◌*◌, ◌%◌, ◌^◌, Bool, true, false, not, ◌&&◌, ◌||◌, List, [], ◌∷◌,
  ◌++◌, map, Option, none, some, ◌⊎◌, inl, inr, leb, ltb, ◌==◌, length, drop, min, find, retain,
  is_empty, if◌then◌else◌, unwrap_or,
}
use kafka_proxy.Base.Map.{Map, get, insert}
use kafka_proxy.Base.Sort.{sort_by}
use kafka_proxy.Text.{Text, text_eq}
use kafka_proxy.Api.{Reply, reply_of, i32_key, i64_key}
use kafka_proxy.Api.Render.{ConsumerRecord, Message, record_to_json}

-- The response to `ListOffsetsRequest`.
pub record OffsetsPartition : Type 0 where
  pub partition_index : ℕ
  pub error_code : ℕ
  pub offset : ℕ

pub record OffsetsTopic : Type 0 where
  pub name : Text
  pub partitions : List OffsetsPartition

-- A partition with its log-end offset.
abbrev pub End : Type 0
End = ℕ × ℕ

abbrev pub end_le : End → End → Bool
end_le a b = leb (i32_key a.0) (i32_key b.0)

unfoldable pub ends_of_partitions : List OffsetsPartition → List End
ends_of_partitions [] = []
ends_of_partitions (p ∷ ps) =
    let rest = ends_of_partitions ps in
    if p.error_code == 0 then (p.partition_index, p.offset) ∷ rest else rest

unfoldable pub ends_of_topics : Text → List OffsetsTopic → List End
unfolding ends_of_partitions
ends_of_topics topic [] = []
ends_of_topics topic (t ∷ ts) =
    let rest = ends_of_topics topic ts in
    if text_eq t.name topic then ends_of_partitions t.partitions ++ rest else rest

-- The arguments are the partitions of each topic described, and `send_to_any_broker`. A failure of
-- the latter is only logged.
unfoldable pub fetch_log_end_offsets :
    Text ⊎ List (List ℕ) → (List ℕ → Text ⊎ List OffsetsTopic) → Text → Text ⊎ List End
unfolding ends_of_topics
fetch_log_end_offsets (inl e) send topic = inl e
fetch_log_end_offsets (inr described) send topic =
    let all_partitions = concat described in
    if is_empty all_partitions then inr [] else elim (send all_partitions) [
      | inl e ↦ inr []
      | inr topics ↦ inr (sort_by end_le (ends_of_topics topic topics))
    ]

-- A partition, and the offsets from which and up to which its messages are shown.
pub record Window : Type 0 where
  pub partition : ℕ
  pub first : ℕ
  pub end : ℕ

-- `(*end - count as i64).max(0)`
abbrev pub first_of : ℕ → ℕ → ℕ
first_of end count =
    let d = (end + 2 ^ 64 - count % 2 ^ 64) % 2 ^ 64 in if leb (2 ^ 63) d then 0 else d

-- `*end <= 0`
abbrev pub is_unused : ℕ → Bool
is_unused end = end == 0 || leb (2 ^ 63) end

unfoldable pub windows_of : ℕ → List End → List Window
windows_of count [] = []
windows_of count ((part, end) ∷ ends) =
    let rest = windows_of count ends in
    if is_unused end
    then rest
    else record { partition = part; first = first_of end count; end = end } ∷ rest

-- The test of a polled record against the first window of its partition.
abbrev pub has_partition : ℕ → Window → Bool
has_partition p w = w.partition == p

abbrev pub in_window : ConsumerRecord → Window → Bool
in_window r w = leb (i64_key w.first) (i64_key r.offset) && ltb (i64_key r.offset) (i64_key w.end)

unfoldable pub is_wanted : List Window → ConsumerRecord → Bool
is_wanted ws r = elim (find (has_partition r.partition) ws) [
  | none ↦ false
  | some w ↦ in_window r w
]

abbrev pub of_partition : ℕ → ConsumerRecord → Bool
of_partition p r = r.partition == p

-- `(*end - start) as usize`
abbrev pub available : Window → ℕ
available w = (w.end + 2 ^ 64 - w.first) % 2 ^ 64

unfoldable pub all_partitions_done : List ConsumerRecord → List Window → Bool
all_partitions_done collected [] = true
all_partitions_done collected (w ∷ ws) =
    let rest = all_partitions_done collected ws in
    if ltb (length (retain (of_partition w.partition) collected)) (available w) then false else rest

-- A round of the loop: the clock at its test, and what the poll gives.
pub record Round : Type 0 where
  pub now : ℕ
  pub reply : Text ⊎ List ConsumerRecord

module _ (rounds : ℕ → Round) (deadline want_total : ℕ) (ws : List Window) where
  -- The loop from round `i` on, on fuel; `none` is the end of the fuel.
  unfoldable pub poll_loop : ℕ → ℕ → List ConsumerRecord → Option (Text ⊎ List ConsumerRecord)
  unfolding is_wanted all_partitions_done
  poll_loop zero i collected = none
  poll_loop (suc fuel) i collected =
      elim (ltb (length collected) want_total && ltb (rounds i).now deadline) [
        | false ↦ some (inr collected)
        | true ↦ elim ((rounds i).reply) [
          | inl e ↦ some (inl e)
          | inr batch ↦
              let collected' = collected ++ retain (is_wanted ws) batch in
              elim (all_partitions_done collected' ws) [
                | true ↦ some (inr collected')
                | false ↦ poll_loop fuel (suc i) collected'
              ]
        ]
      ]

-- `by_part.entry(r.partition).or_default().push(r)`
unfoldable pub push_record : ConsumerRecord → Map (List ConsumerRecord) → Map (List ConsumerRecord)
push_record r m = insert r.partition (unwrap_or (get r.partition m) [] ++ (r ∷ [])) m

unfoldable pub group_by_partition :
    List ConsumerRecord → Map (List ConsumerRecord) → Map (List ConsumerRecord)
unfolding push_record
group_by_partition [] m = m
group_by_partition (r ∷ rs) m = group_by_partition rs (push_record r m)

abbrev pub offset_le : ConsumerRecord → ConsumerRecord → Bool
offset_le a b = leb (i64_key a.offset) (i64_key b.offset)

-- The last `count` records by offset.
unfoldable pub recent : ℕ → List ConsumerRecord → List ConsumerRecord
recent count recs =
    let sorted = sort_by offset_le recs in
    let taken = min (length sorted) count in drop (length sorted - taken) sorted

unfoldable pub messages_of : ℕ → Map (List ConsumerRecord) → List Message
unfolding recent
messages_of count [] = []
messages_of count ((part, recs) ∷ m) = map record_to_json (recent count recs) ++ messages_of count m

-- `pa.cmp(&pb).then_with(|| ..)` on the partition and the offset of the JSON objects.
abbrev pub message_le : Message → Message → Bool
message_le a b =
    ltb (i32_key a.partition) (i32_key b.partition)
    || (i32_key a.partition == i32_key b.partition && leb (i64_key a.offset) (i64_key b.offset))

pub record LatestMessages : Type 0 where
  pub topic : Text
  pub count : ℕ
  pub messages : List Message

-- The reply for the records collected.
unfoldable pub reply_messages : Text → ℕ → List ConsumerRecord → LatestMessages
unfolding group_by_partition messages_of
reply_messages topic count collected =
    let messages = sort_by message_le (messages_of count (group_by_partition collected [])) in
    record { topic = topic; count = length messages; messages = messages }

-- What the code asks of kafka_client: a refresh of the metadata and the log ends, the assignment of
-- partitions and each seek, where something is an error, and the polls.
pub record Source : Type 0 where
  pub refresh : Option Text
  pub described : Text ⊎ List (List ℕ)
  pub send : List ℕ → Text ⊎ List OffsetsTopic
  pub assign : List ℕ → Option Text
  pub seek : ℕ → ℕ → Option Text
  pub rounds : ℕ → Round
  pub deadline : ℕ

module _ (s : Source) where
  open s use {refresh, described, send, assign, seek, rounds, deadline}

  unfoldable pub seek_all : List Window → Option Text
  seek_all [] = none
  seek_all (w ∷ ws) =
      let rest = seek_all ws in elim (seek w.partition w.first) [ some e ↦ some e | none ↦ rest ]

  abbrev pub assign_and_seek : List Window → Option Text
  unfolding seek_all
  assign_and_seek ws = elim (assign (map (λ (w : Window). w.partition) ws)) [
    | some e ↦ some e
    | none ↦ seek_all ws
  ]

  -- On fuel for the loop.
  unfoldable pub latest_messages : ℕ → Text → ℕ → Option (Text ⊎ LatestMessages)
  unfolding fetch_log_end_offsets windows_of poll_loop reply_messages
  latest_messages fuel topic count = elim refresh [
    | some e ↦ some (inl e)
    | none ↦ elim (fetch_log_end_offsets described send topic) [
      | inl e ↦ some (inl e)
      | inr ends ↦
          let ws = windows_of count ends in
          if is_empty ws
          then some (inr (record { topic = topic; count = 0; messages = [] }))
          else elim (assign_and_seek ws) [
            | some e ↦ some (inl e)
            | none ↦ elim (poll_loop rounds deadline (count * length ws) ws fuel 0 []) [
              | none ↦ none
              | some (inl e) ↦ some (inl e)
              | some (inr collected) ↦ some (inr (reply_messages topic count collected))
            ]
          ]
    ]
  ]

-- `q.count.unwrap_or(deps.default_count).clamp(1, 1000)`
abbrev pub clamp_count : Option ℕ → ℕ → ℕ
clamp_count asked default_count =
    let c = unwrap_or asked default_count in if ltb c 1 then 1 else if ltb 1000 c then 1000 else c

unfoldable pub latest_messages_handler :
    Source → ℕ → Text → Option ℕ → ℕ → Option (Reply LatestMessages)
unfolding latest_messages
latest_messages_handler s fuel topic asked default_count =
    elim (latest_messages s fuel topic (clamp_count asked default_count)) [
      | none ↦ none
      | some result ↦ some (reply_of result)
    ]
