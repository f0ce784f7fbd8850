-- ===== src/Ingest/Pipeline/Packets.antt =====
-- The statements of src/ingest/pipeline.ts on the packets.
use hop_watch.Prelude.{
  ℕ, ◌+◌, Bool, true, false, not, ◌&&◌, ◌||◌, Option, none, some, [], ◌∷◌, ◌++◌, ◌==◌,
  if◌then◌else◌, is_some,
}
use hop_watch.Ingest.Pipeline.Envelope.{
  NormalizedPacket, NormalizedEnvelope, IngestMeta, text_or_null,
}
use hop_watch.Ingest.Pipeline.Statements.{coalesce, update_where, count_where, find_row}
use hop_watch.Ingest.Pipeline.Rows.{
  DecodeStatus, decoded, encrypted, malformed, PacketRow, PacketTables,
}
use hop_watch.Ingest.Pipeline.Arrival.{Arrival}

unfoldable pub decode_status_of : NormalizedPacket → DecodeStatus
decode_status_of p =
    if is_some p.decoded then decoded else if is_some p.encrypted then encrypted else malformed

unfoldable pub channel_index_of : NormalizedPacket → Option ℕ
channel_index_of p = if p.channel_is_hash then none else p.channel

unfoldable pub port_of : NormalizedPacket → Option ℕ
port_of p = elim p.decoded [ none ↦ none | some d ↦ some d.portnum ]

-- The values of the `INSERT`, under the id that the table would assign.
unfoldable pub packet_values : ℕ → ℕ → IngestMeta → NormalizedEnvelope → Arrival → PacketRow
unfolding decode_status_of channel_index_of port_of text_or_null
packet_values id now meta env a =
    let p = env.packet in
    record {
      id = id;
      first_seen_at = a.first_seen_at;
      first_reception_at = some now;
      mesh_packet_id = p.mesh_packet_id;
      from_node_id = p.from;
      to_node_id = p.to;
      dedup_bucket_no = a.bucket;
      channel_index = channel_index_of p;
      channel_id = text_or_null env.channel_id;
      port_num = port_of p;
      decode_status = decode_status_of p;
      want_ack = p.want_ack;
      via_mqtt = p.via_mqtt;
      ok_to_mqtt = p.ok_to_mqtt;
      raw_json = if env.from_json then some env else none;
      reception_count = 0;
      source_broker_id = meta.broker_id;
      decoded_side_written = false;
    }

-- The unique key of the packets.
unfoldable pub has_same_key : PacketRow → PacketRow → Bool
has_same_key v r =
    r.from_node_id == v.from_node_id
    && r.mesh_packet_id == v.mesh_packet_id
    && r.dedup_bucket_no == v.dedup_bucket_no
    && r.first_seen_at == v.first_seen_at

unfoldable pub is_decoded : DecodeStatus → Bool
is_decoded decoded = true
is_decoded _ = false

unfoldable pub merge_packet : PacketRow → PacketRow → PacketRow
unfolding is_decoded
merge_packet v r = record r {
  first_reception_at = coalesce r.first_reception_at v.first_reception_at;
  port_num = coalesce r.port_num v.port_num;
  channel_id = coalesce r.channel_id v.channel_id;
  channel_index = coalesce r.channel_index v.channel_index;
  decode_status = if is_decoded r.decode_status then decoded else v.decode_status;
}

unfoldable pub same_status : DecodeStatus → DecodeStatus → Bool
same_status decoded decoded = true
same_status encrypted encrypted = true
same_status malformed malformed = true
same_status _ _ = false

unfoldable pub gains {ℓ} : {A : Type ℓ} → Option A → Option A → Bool
gains old new = not (is_some old) && is_some new

-- Whether `merge_packet` changes the row.
unfoldable pub is_changed : PacketRow → PacketRow → Bool
unfolding gains is_decoded same_status
is_changed v r =
    gains r.first_reception_at v.first_reception_at
    || gains r.port_num v.port_num
    || gains r.channel_id v.channel_id
    || gains r.channel_index v.channel_index
    || not (is_decoded r.decode_status) && not (same_status r.decode_status v.decode_status)

-- `id=? AND first_seen_at=?`.
unfoldable pub is_packet : ℕ → ℕ → PacketRow → Bool
is_packet id seen r = r.id == id && r.first_seen_at == seen

-- The upsert: the tables, `insertId`, and `affectedRows`, which the driver counts as `unchanged` for
-- a row that keeps its values.
unfoldable pub upsert_packet : ℕ → PacketRow → PacketTables → PacketTables × ℕ × ℕ
unfolding has_same_key merge_packet is_changed
upsert_packet unchanged v t = elim (find_row (has_same_key v) t.packets) [
  | none ↦ (record t { packets = t.packets ++ v ∷ []; next_id = t.next_id + 1 }, v.id, 1)
  | some r ↦ (
    record t { packets = update_where (has_same_key v) (merge_packet v) t.packets },
    r.id,
    (if is_changed v r then 2 else unchanged),
  )
]

-- The third step.
unfoldable pub bump_reception_count : ℕ → ℕ → PacketTables → PacketTables
unfolding is_packet
bump_reception_count id seen t = record t {
  packets =
      update_where (is_packet id seen) (λ r. record r { reception_count = r.reception_count + 1 })
        t.packets;
}

unfoldable pub is_unwritten : ℕ → ℕ → PacketRow → Bool
unfolding is_packet
is_unwritten id seen r = is_packet id seen r && not r.decoded_side_written

-- The claim that precedes `writeDecoded`, and whether it is won.
unfoldable pub claim_side : ℕ → ℕ → PacketTables → PacketTables × Bool
unfolding is_unwritten
claim_side id seen t = (
  record t {
    packets =
        update_where (is_unwritten id seen) (λ r. record r { decoded_side_written = true })
          t.packets;
  },
  count_where (is_unwritten id seen) t.packets == 1,
)
