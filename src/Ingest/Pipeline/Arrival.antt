-- ===== src/Ingest/Pipeline/Arrival.antt =====
-- When a delivery counts as received and which packet it is a copy of: the head of `applyEnvelope`,
-- src/ingest/pipeline.ts.
use hop_watch.Prelude.{
  ℕ, ◌+◌, Bool, not, ◌&&◌, Option, none, some, List, [], ◌∷◌, ltb, leb, ◌==◌, if◌then◌else◌,
}
use hop_watch.Stats.Window.{dedup_bucket, bucket_start, dedup_lookup_range}
use hop_watch.Ingest.Pipeline.Envelope.{NormalizedPacket}
use hop_watch.Ingest.Pipeline.Rows.{PacketRow}

-- What the head of `applyEnvelope` computes of a delivery.
pub record Arrival : Type 0 where
  pub clock_ok : Bool
  pub rx_time : ℕ
  pub bucket : ℕ
  pub first_seen_at : ℕ
  pub rx_row_time : ℕ

-- `p.rxTimeMs || 0`.
unfoldable pub reported_ms : NormalizedPacket → ℕ
reported_ms p = elim p.rx_time_ms [ none ↦ 0 | some t ↦ t ]

-- 2020-01-01 in UTC, and an hour.
abbrev pub min_plausible_ms : ℕ
min_plausible_ms = 1577836800000

abbrev pub max_future_skew_ms : ℕ
max_future_skew_ms = 3600000

unfoldable pub is_plausible : ℕ → ℕ → Bool
is_plausible now reported = leb min_plausible_ms reported && leb reported (now + max_future_skew_ms)

-- `… WHERE from_node_id=? AND mesh_packet_id=? AND first_seen_at BETWEEN ? AND ?`.
unfoldable pub is_copy : NormalizedPacket → ℕ → ℕ → PacketRow → Bool
is_copy p lo hi r =
    r.from_node_id == p.from
    && r.mesh_packet_id == p.mesh_packet_id
    && leb lo r.first_seen_at
    && leb r.first_seen_at hi

unfoldable pub newer : PacketRow → Option PacketRow → Option PacketRow
newer r none = some r
newer r (some q) = if ltb r.first_seen_at q.first_seen_at then some q else some r

-- `ORDER BY first_seen_at DESC LIMIT 1`.
unfoldable pub newest_copy : NormalizedPacket → ℕ → ℕ → List PacketRow → Option PacketRow
unfolding is_copy newer
newest_copy p lo hi [] = none
newest_copy p lo hi (r ∷ rs) =
    let rest = newest_copy p lo hi rs in if is_copy p lo hi r then newer r rest else rest

unfoldable pub has_mesh_id : NormalizedPacket → Bool
has_mesh_id p = not (p.mesh_packet_id == 0)

unfoldable pub rolling_copy : ℕ → ℕ → NormalizedPacket → List PacketRow → Option PacketRow
unfolding has_mesh_id newest_copy dedup_lookup_range
rolling_copy window_s rx p rows =
    if has_mesh_id p
    then newest_copy p (dedup_lookup_range rx window_s).0 (dedup_lookup_range rx window_s).1 rows
    else none

unfoldable pub rx_time_of : ℕ → NormalizedPacket → ℕ
unfolding reported_ms is_plausible
rx_time_of now p = if is_plausible now (reported_ms p) then reported_ms p else now

unfoldable pub bucket_of : ℕ → ℕ → Option PacketRow → ℕ
unfolding dedup_bucket
bucket_of window_s rx none = dedup_bucket rx window_s
bucket_of window_s rx (some r) = r.dedup_bucket_no

unfoldable pub first_seen_of : ℕ → ℕ → NormalizedPacket → Option PacketRow → ℕ
unfolding has_mesh_id bucket_start
first_seen_of window_s rx p none = if has_mesh_id p then bucket_start rx window_s else rx
first_seen_of window_s rx p (some r) = r.first_seen_at

unfoldable pub arrival : ℕ → ℕ → NormalizedPacket → List PacketRow → Arrival
unfolding rx_time_of rolling_copy bucket_of first_seen_of is_plausible
arrival now window_s p rows =
    let rx = rx_time_of now p in
    let copy = rolling_copy window_s rx p rows in
    let ok = is_plausible now (reported_ms p) in
    record {
      clock_ok = ok;
      rx_time = rx;
      bucket = bucket_of window_s rx copy;
      first_seen_at = first_seen_of window_s rx p copy;
      rx_row_time = if ok then rx else first_seen_of window_s rx p copy;
    }
