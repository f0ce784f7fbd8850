-- ===== src/Ingest/Pipeline/Apply.antt =====
-- One delivery in one transaction: applyEnvelope and its callers, src/ingest/pipeline.ts and
-- src/ingest/batch.ts. `now` is the wall clock, which is read once
-- for a delivery; `unchanged` is what the driver
-- reports as the affected rows of an upsert that leaves a row with the values it had.
use hop_watch.Prelude.{ℕ, Bool, true, false, not, List, [], ◌∷◌, ◌++◌, ltb, ◌==◌, if◌then◌else◌}
use hop_watch.Ingest.Pipeline.Envelope.{NormalizedEnvelope, IngestMeta, IngestOutcome}
use hop_watch.Ingest.Pipeline.Arrival.{Arrival, arrival}
use hop_watch.Ingest.Pipeline.Packets.{packet_values, upsert_packet}
use hop_watch.Ingest.Pipeline.Receptions.{
  reception_values, is_rf, upgrade_receptions, insert_reception,
}
use hop_watch.Ingest.Pipeline.Db.{IngestDb, LiveEvt, insert_live_events}
use hop_watch.Ingest.Pipeline.Steps.{class_of, write_side, backfill_channel, accept}

module _ (meta : IngestMeta) (env : NormalizedEnvelope) (now : ℕ) where
  abbrev pub outcome_of : Bool → Bool → ℕ → IngestOutcome
  outcome_of packet_new rx_new id = record {
    new_packet = packet_new;
    new_reception = rx_new;
    packet_id = id;
    reception_class = class_of env;
  }

  -- The second step, from the reception on: an upgrade, a repeated reception or a new one.
  unfoldable pub receive : ℕ → Arrival → Bool → IngestDb → IngestDb × List LiveEvt × IngestOutcome
  unfolding write_side accept class_of
  receive id a new db =
      let v = reception_values id now meta env a (class_of env) in
      let (upgraded, n) =
        if is_rf meta.transport then upgrade_receptions v db.tables else (db.tables, 0) in
      let (inserted, fresh) = insert_reception v db.tables in
      if ltb 0 n
      then (
        write_side meta env now id a (record db { tables = upgraded }),
        [],
        outcome_of false false id,
      )
      else if not fresh
      then (
        write_side meta env now id a (record db { tables = inserted }),
        [],
        outcome_of false false id,
      )
      else let (db', evts) = accept meta env now id a new (record db { tables = inserted }) in
        (db', evts, outcome_of new true id)

  -- The result carries the events that the call pushes onto its sink.
  unfoldable pub apply_envelope : ℕ → IngestDb → IngestDb × List LiveEvt × IngestOutcome
  unfolding backfill_channel receive
  apply_envelope unchanged db =
      let a = arrival now meta.window_seconds env.packet db.tables.packets in
      let (t, id, affected) =
        upsert_packet unchanged (packet_values db.tables.next_id now meta env a) db.tables in
      let new = affected == 1 in
      receive id a new (backfill_channel meta env now id new (record db { tables = t }))

-- One item of a batch, with the wall clock when it is applied.
pub record BatchItem : Type 0 where
  pub now : ℕ
  pub env : NormalizedEnvelope
  pub meta : IngestMeta

-- The transaction of one chunk: its items in their order, then their events. Whether it commits is
-- the database's answer; a rollback leaves the database as it was.
unfoldable pub apply_items : ℕ → List BatchItem → IngestDb × List LiveEvt → IngestDb × List LiveEvt
apply_items unchanged [] (db, sink) = (db, sink)
apply_items unchanged (i ∷ is) (db, sink) =
    let (db', evts, outcome) = apply_envelope i.meta i.env i.now unchanged db in
    apply_items unchanged is (db', sink ++ evts)

unfoldable pub commit_chunk : ℕ → Bool → List BatchItem → IngestDb → IngestDb
unfolding apply_items insert_live_events
commit_chunk unchanged commits items db =
    let (db', sink) = apply_items unchanged items (db, []) in
    if commits then insert_live_events sink db' else db

unfoldable pub process_envelope : ℕ → Bool → BatchItem → IngestDb → IngestDb
unfolding insert_live_events
process_envelope unchanged commits i db =
    let (db', evts, outcome) = apply_envelope i.meta i.env i.now unchanged db in
    if commits then insert_live_events evts db' else db
