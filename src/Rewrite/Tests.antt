-- ===== src/Rewrite/Tests.antt =====
-- Runs and witnesses for the rewriting of responses, with the codec of `Sample`.
use kafka_proxy.Base.{◌≡◌, refl, ◌↔◌, false, [], ◌∷◌, ◌++◌, none, some, arith}
use kafka_proxy.Base.Map.{get}
use kafka_proxy.Wire.{Bytes, put_i32, get_i32, slice_from}
use kafka_proxy.Base.{◌≤◌, length}
use kafka_proxy.Rewrite.Varint.{encode_unsigned_varint}
use kafka_proxy.Rewrite.Varint.Reading.{read_unsigned_varint, read-encode_unsigned_varint}
use kafka_proxy.Rewrite.Header.{parse_response_cid, response_cid}
use kafka_proxy.Rewrite.Brokers.{AllRewritten, AnyMapped}
use kafka_proxy.Rewrite.RoundTrip.{
  Rewrites, CoordinatorRewritten, rewrite_metadata_response-decode,
  rewrite_describe_cluster_response-decode, rewrite_find_coordinator_response-decode,
}
use kafka_proxy.Rewrite.Dispatch.{rewrite_metadata_response_iff}
use kafka_proxy.Rewrite.Sample.{
  sample_protocol, metadata_laws, cluster_laws, coordinator_laws, decode_sample, frame_cid,
  frame_node, pack_node, unpack_node, pack_brokers, pack_coordinators, one_broker,
}
use kafka_proxy.Rewrite.{
  RewriteMap, rewrite_broker, rewrite_brokers, response_header, response_body, reencode,
  rewrite_metadata_response, rewrite_describe_cluster_response, rewrite_coordinators,
  rewrite_find_coordinator_response, rewrite_response,
}

-- Correlation id 7; node 1 at port 9092 of the host "r".
abbrev raw_frame : Bytes
raw_frame = 0 ∷ 0 ∷ 0 ∷ 7 ∷ 0 ∷ 0 ∷ 0 ∷ 1 ∷ 0 ∷ 0 ∷ 35 ∷ 132 ∷ b'r' ∷ []

-- The same with port 19092 of the host "p".
abbrev out_frame : Bytes
out_frame = 0 ∷ 0 ∷ 0 ∷ 7 ∷ 0 ∷ 0 ∷ 0 ∷ 1 ∷ 0 ∷ 0 ∷ 74 ∷ 148 ∷ b'p' ∷ []

abbrev table : RewriteMap
table = (1, (b'p' ∷ [], 19092)) ∷ []

metadata_run : rewrite_metadata_response sample_protocol 9 raw_frame table ≡ some out_frame
unfolding rewrite_metadata_response rewrite_brokers rewrite_broker reencode response_header
    response_body get decode_sample pack_node unpack_node pack_brokers put_i32 get_i32 slice_from
    response_cid parse_response_cid frame_cid frame_node
metadata_run = refl

cluster_run : rewrite_describe_cluster_response sample_protocol 0 raw_frame table ≡ some out_frame
unfolding rewrite_describe_cluster_response rewrite_brokers rewrite_broker reencode response_header
    response_body get decode_sample pack_node unpack_node pack_brokers put_i32 get_i32 slice_from
    response_cid parse_response_cid frame_cid frame_node
cluster_run = refl

coordinator_run :
    rewrite_find_coordinator_response sample_protocol 3 raw_frame table ≡ some out_frame
unfolding rewrite_find_coordinator_response rewrite_coordinators reencode response_header
    response_body get decode_sample pack_node unpack_node pack_coordinators put_i32 get_i32
    slice_from response_cid parse_response_cid frame_cid frame_node
coordinator_run = refl

-- From version 4 on the response's own address is not read.
coordinator_run_new : rewrite_find_coordinator_response sample_protocol 4 raw_frame table ≡ none
unfolding rewrite_find_coordinator_response rewrite_coordinators rewrite_brokers reencode
    response_header response_body get decode_sample pack_node unpack_node pack_coordinators put_i32
    get_i32 slice_from response_cid parse_response_cid frame_cid frame_node
coordinator_run_new = refl

decoded_run :
    sample_protocol.metadata.decode_frame raw_frame 9
    ≡ some (7, record { brokers = one_broker (1, 9092, b'r' ∷ []); rest = tt })
unfolding decode_sample unpack_node get_i32 slice_from response_cid parse_response_cid frame_cid
    frame_node
decoded_run = refl

rewrite_metadata_response-decode_example :
    Rewrites sample_protocol.metadata
      (λ before after. AllRewritten table before.brokers after.brokers × (after.rest ≡ before.rest))
      9
      raw_frame
      out_frame
rewrite_metadata_response-decode_example =
    rewrite_metadata_response-decode sample_protocol 9 raw_frame out_frame table (λ _ _. Unit {0})
      metadata_laws (λ v r bs c s. tt) metadata_run

rewrite_describe_cluster_response-decode_example :
    Rewrites sample_protocol.describe_cluster
      (λ before after. AllRewritten table before.brokers after.brokers × (after.rest ≡ before.rest))
      0
      raw_frame
      out_frame
rewrite_describe_cluster_response-decode_example =
    rewrite_describe_cluster_response-decode sample_protocol 0 raw_frame out_frame table
      (λ _ _. Unit {0}) cluster_laws (λ v r bs c s. tt) cluster_run

rewrite_find_coordinator_response-decode_example :
    Rewrites sample_protocol.find_coordinator (CoordinatorRewritten 3 table) 3 raw_frame out_frame
rewrite_find_coordinator_response-decode_example =
    rewrite_find_coordinator_response-decode sample_protocol 3 raw_frame out_frame table
      (λ _ _. Unit {0}) coordinator_laws (λ v r r' c s. tt) coordinator_run

dispatch_run : rewrite_response sample_protocol 3 9 raw_frame table ≡ some out_frame
unfolding rewrite_response
dispatch_run = metadata_run

rewrite_metadata_response_iff_example :
    ((out : Bytes) × (rewrite_metadata_response sample_protocol 9 raw_frame table ≡ some out)) ↔ (
      AnyMapped table (one_broker (1, 9092, b'r' ∷ []))
      × ((body : Bytes) × (response_body sample_protocol.metadata 9 (record {
        brokers = (rewrite_brokers table (one_broker (1, 9092, b'r' ∷ [])) false).0;
        rest = tt;
      })
            ≡ some body)))
rewrite_metadata_response_iff_example =
    rewrite_metadata_response_iff sample_protocol 9 7 raw_frame table
      (record { brokers = one_broker (1, 9092, b'r' ∷ []); rest = tt }) decoded_run

read-encode_unsigned_varint_example :
    (written : Bytes) × (encode_unsigned_varint (9 ∷ []) 300 ≡ (9 ∷ []) ++ written)
    × (length written ≤ 5)
    × (read_unsigned_varint (written ++ (7 ∷ [])) ≡ some (300, 7 ∷ []))
read-encode_unsigned_varint_example =
    read-encode_unsigned_varint 300 (9 ∷ []) (7 ∷ []) (omega arith)
