-- ===== src/Api/Messages/Windows.antt =====
-- src/api.rs: what `latest_messages` shows of each partition.
use kafka_proxy.Base.{
  ℕ, suc, ◌-◌, ◌*◌, ◌^◌, ◌≤◌, ◌<◌, ◌≡◌, refl, sym, ap, ◌∙◌, Bool, true, false, List, [], ◌∷◌, map,
  none, some, inl, inr, arith, ◌==◌, length, min, find, retain, is_empty, unwrap_or, All,
  Bool-cases, Option-cases, Sum-cases,
}
use kafka_proxy.Base.Map.{Map, get, Distinct}
use kafka_proxy.Base.Sort.{
  sort_by, IsSorted, sort_by-IsSorted, sort_by-All, retain-sort_by, length-sort_by, All-append,
}
use kafka_proxy.Text.{Text}
use kafka_proxy.Api.{i64_key}
use kafka_proxy.Api.Render.{ConsumerRecord, Message, record_to_json}
use kafka_proxy.Api.Messages.{
  Window, End, Source, LatestMessages, is_wanted, has_partition, is_unused, windows_of, poll_loop,
  group_by_partition, offset_le, recent, messages_of, message_le, reply_messages,
  fetch_log_end_offsets, assign_and_seek, latest_messages,
}
use kafka_proxy.Api.Messages.Polls.{poll_loop_wanted}
use kafka_proxy.Api.Messages.Groups.{
  length-drop, drop-All, retain-append, retain_all, retain_none, IsGroup,
  group_by_partition-IsGroup,
}

message_le_total : (a b : Message) → message_le a b ≡ false → message_le b a ≡ true
message_le_total a b h = ground arith

message_le_trans :
    (a b c : Message) → message_le a b ≡ true → message_le b c ≡ true → message_le a c ≡ true
message_le_trans a b c p q = ground arith

-- The message stands in the first window of its partition.
abbrev pub IsShown : List Window → Message → Type 0
IsShown ws m =
    (w : Window) × (find (has_partition m.partition) ws ≡ some w)
    × (i64_key w.first ≤ i64_key m.offset)
    × (i64_key m.offset < i64_key w.end)

abbrev pub at_partition : ℕ → Message → Bool
at_partition p m = m.partition == p

is_wanted-IsShown :
    (ws : List Window) (r : ConsumerRecord) → is_wanted ws r ≡ true → IsShown ws (record_to_json r)
unfolding is_wanted record_to_json
is_wanted-IsShown ws r h = elim (Option-cases (find (has_partition r.partition) ws)) [
  | inl e ↦ ground arith
  | inr (w, e) ↦ (w, e, ground arith, ground arith)
]

length-recent :
    (count : ℕ) (recs : List ConsumerRecord) → length (recent count recs) ≡ min (length recs) count
unfolding recent
length-recent count recs =
    length-drop _ (sort_by offset_le recs) ∙ ground (arith, length-sort_by offset_le recs)

recent-All :
    (P : ConsumerRecord → Type 0) (count : ℕ) (recs : List ConsumerRecord)
    → All P recs
    → All P (recent count recs)
unfolding recent
recent-All P count recs a = drop-All P _ (sort_by offset_le recs) (sort_by-All P offset_le recs a)

map-All :
    (P : ConsumerRecord → Type 0) (Q : Message → Type 0)
    → ((r : ConsumerRecord) → P r → Q (record_to_json r))
    → (rs : List ConsumerRecord) → All P rs
    → All Q (map record_to_json rs)
map-All P Q f [] a = tt
map-All P Q f (r ∷ rs) a = (f r a.0, map-All P Q f rs a.1)

length-map : (rs : List ConsumerRecord) → length (map record_to_json rs) ≡ length rs
length-map [] = refl
length-map (r ∷ rs) = ap suc (length-map rs)

messages_of-All :
    (ws : List Window) (count : ℕ) (m : Map (List ConsumerRecord))
    → All (IsGroup (λ r. is_wanted ws r ≡ true)) m
    → All (IsShown ws) (messages_of count m)
unfolding messages_of
messages_of-All ws count [] a = tt
messages_of-All ws count ((part, recs) ∷ m) a =
    All-append (IsShown ws) (map record_to_json (recent count recs)) (messages_of count m)
      (map-All _ (IsShown ws) (λ r h. is_wanted-IsShown ws r h.1) (recent count recs)
        (recent-All _ count recs a.0))
      (messages_of-All ws count m a.1)

-- Of a partition with a group, as many messages as the group has, but not more than `count`.
messages_of-length :
    (P : ConsumerRecord → Type 0) (count p : ℕ) (m : Map (List ConsumerRecord))
    → All (IsGroup P) m
    → Distinct m
    → length (retain (at_partition p) (messages_of count m))
      ≡ min (length (unwrap_or (get p m) [])) count
unfolding messages_of get
messages_of-length P count p [] a d = ground arith
messages_of-length P count p ((part, recs) ∷ m) (g, a) (fresh, d) =
    retain-append (at_partition p) (map record_to_json (recent count recs)) (messages_of count m)
    ∙ elim (Bool-cases (part == p)) [
      | inl e ↦
          let same : part ≡ p = ground arith in
          let absent : get p m ≡ none = rw (← same) fresh in
          let all = retain_all (at_partition p) (map record_to_json (recent count recs)) (
            map-All (λ r. (r.partition ≡ part) × P r) (λ x. at_partition p x ≡ true)
              (λ r h. unfold record_to_json in ground arith) (recent count recs)
              (recent-All _ count recs g)) in
          ground (
            arith,
            all,
            length-map (recent count recs),
            length-recent count recs,
            messages_of-length P count p m a d,
          )
      | inr e ↦
          let none_here = retain_none (at_partition p) (map record_to_json (recent count recs)) (
            map-All (λ r. (r.partition ≡ part) × P r) (λ x. at_partition p x ≡ false)
              (λ r h. unfold record_to_json in ground arith) (recent count recs)
              (recent-All _ count recs g)) in
          ground (arith, none_here, messages_of-length P count p m a d)
    ]

-- The windows reach back `count` offsets from the end, or to 0.
abbrev pub IsWindow : ℕ → Window → Type 0
IsWindow count w = (0 < w.end) × (w.end < 2 ^ 63) × (w.first ≡ w.end - count)

windows_of-IsWindow :
    (count : ℕ) (ends : List End) → count < 2 ^ 63 → All (IsWindow count) (windows_of count ends)
unfolding windows_of
windows_of-IsWindow count [] small = tt
windows_of-IsWindow count ((part, end) ∷ ends) small = elim (Bool-cases (is_unused end)) [
  | inl e ↦ rw e (windows_of-IsWindow count ends small)
  | inr e ↦ rw e ((ground arith, ground arith, ground arith), windows_of-IsWindow count ends small)
]

-- A reply for records that were wanted.
abbrev IsReply : ℕ → List Window → ℕ → LatestMessages → Type 0
IsReply count ws p r =
    (r.count ≡ length r.messages)
    × IsSorted message_le r.messages
    × All (IsShown ws) r.messages
    × (length (retain (at_partition p) r.messages) ≤ count)

reply_messages-IsReply :
    (topic : Text) (count p : ℕ) (ws : List Window) (collected : List ConsumerRecord)
    → All (λ r. is_wanted ws r ≡ true) collected
    → IsReply count ws p (reply_messages topic count collected)
unfolding reply_messages
reply_messages-IsReply topic count p ws collected wanted =
    let (groups, distinct) =
      group_by_partition-IsGroup (λ r. is_wanted ws r ≡ true) collected [] wanted tt tt in
    let ms = messages_of count (group_by_partition collected []) in
    let bound =
      retain-sort_by (at_partition p) message_le ms
      ∙ messages_of-length (λ r. is_wanted ws r ≡ true) count p (group_by_partition collected [])
          groups distinct in
    (
      refl,
      sort_by-IsSorted message_le message_le_total message_le_trans ms,
      sort_by-All (IsShown ws) message_le ms
          (messages_of-All ws count (group_by_partition collected []) groups),
      ground (arith, bound),
    )

-- When `latest_messages` replies, its count is the number of messages, which are sorted by partition
-- and offset; each stands in the window of its partition, and there are at most `count` of each
-- partition. The windows are those of the log ends fetched: each reaches from its end back `count`
-- offsets, or to 0.
pub latest_messages_windows :
    (s : Source) (fuel : ℕ) (topic : Text) (count p : ℕ) (r : LatestMessages)
    → count < 2 ^ 63
    → latest_messages s fuel topic count ≡ some (inr r)
    → (ends : List End) × (fetch_log_end_offsets s.described s.send topic ≡ inr ends)
      × All (IsWindow count) (windows_of count ends)
      × (r.count ≡ length r.messages)
      × IsSorted message_le r.messages
      × All (IsShown (windows_of count ends)) r.messages
      × (length (retain (at_partition p) r.messages) ≤ count)
unfolding latest_messages
latest_messages_windows s fuel topic count p r small h = elim (Option-cases s.refresh) [
  | inr (e, q) ↦ ground arith
  | inl fresh ↦ elim (Sum-cases (fetch_log_end_offsets s.described s.send topic)) [
    | inl (e, q) ↦ ground arith
    | inr (ends, q) ↦
        let ws = windows_of count ends in
        let made = windows_of-IsWindow count ends small in
        elim (Bool-cases (is_empty ws)) [
          | inl none_used ↦
              let e : record { topic = topic; count = 0; messages = [] } ≡ r = ground arith in
              let reply : IsReply count ws p r = rw (sym e) (refl, tt, tt, omega arith) in
              (ends, q, made, reply.0, reply.1, reply.2, reply.3)
          | inr used ↦ elim (Option-cases (assign_and_seek s ws)) [
            | inr (e, x) ↦ ground arith
            | inl sought ↦
                elim (Option-cases
                  (poll_loop s.rounds s.deadline (count * length ws) ws fuel 0 [])) [
                    | inl e ↦ ground arith
                    | inr (inl x, e) ↦ ground arith
                    | inr (inr collected, e) ↦
                        let wanted =
                          poll_loop_wanted s.rounds s.deadline (count * length ws) ws fuel 0 []
                            collected tt e in
                        let same : reply_messages topic count collected ≡ r = ground arith in
                        let reply : IsReply count ws p r =
                          rw (← same) (reply_messages-IsReply topic count p ws collected wanted) in
                        (ends, q, made, reply.0, reply.1, reply.2, reply.3)
                  ]
          ]
        ]
  ]
]
