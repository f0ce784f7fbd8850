-- ===== src/Ingest/Pipeline/Counted.antt =====
-- That every delivery of src/ingest/pipeline.ts leaves each packet with the number of its receptions.
use hop_watch.Prelude.{
  ℕ, ◌≡◌, refl, sym, subst, Bool, not, List, [], ◌∷◌, arith, ltb, ◌==◌, if◌then◌else◌, if-cases,
}
use hop_watch.Ingest.Pipeline.Packets.{packet_values, upsert_packet}
use hop_watch.Ingest.Pipeline.Kept.{write_side-tables, accept-tables, backfill_channel-tables}
use hop_watch.Ingest.Pipeline.Steps.{class_of}
use hop_watch.Ingest.Pipeline.Receptions.{
  reception_values, is_rf, upgrade_receptions, insert_reception,
}
use hop_watch.Ingest.Pipeline.Counts.{
  claim_side-IsCounted, upgrade_receptions-IsCounted, insert_reception_known,
  insert_reception-IsCounted, upsert_packet-IsCounted, upsert_packet-Names,
}
use hop_watch.Ingest.Pipeline.Tally.{IsCounted-IsKeyed, IsCounted, Names}
use hop_watch.Ingest.Pipeline.Arrival.{Arrival, arrival}
use hop_watch.Ingest.Pipeline.Apply.{receive, apply_envelope, commit_chunk, apply_items, BatchItem}
use hop_watch.Ingest.Pipeline.Db.{IngestDb, LiveEvt, insert_live_events}
use hop_watch.Ingest.Pipeline.Envelope.{NormalizedEnvelope, IngestMeta, IngestOutcome}
use hop_watch.Ingest.Pipeline.Rows.{PacketTables, ReceptionRow, PacketRow}

abbrev pub Result : Type 0
Result = IngestDb × List LiveEvt × IngestOutcome

module _ (meta : IngestMeta) (env : NormalizedEnvelope) (now : ℕ) where
  pub receive-IsCounted :
      (id : ℕ) (a : Arrival) (new : Bool) (db : IngestDb)
      → IsCounted db.tables
      → Names id a.first_seen_at db.tables
      → IsCounted (receive meta env now id a new db).0.tables
  unfolding receive reception_values
  receive-IsCounted id a new db h name =
      let v : ReceptionRow = reception_values id now meta env a (class_of env) in
      let upgrade : PacketTables × ℕ =
        if is_rf meta.transport then upgrade_receptions v db.tables else (db.tables, 0) in
      if-cases (λ (x : Result). IsCounted x.0.tables) (ltb 0 upgrade.1)
        (λ _.
          write_side-tables meta env now IsCounted id a _
            (claim_side-IsCounted id a.first_seen_at _)
            (if-cases (λ (p : PacketTables × ℕ). IsCounted p.0) (is_rf meta.transport)
              (λ _. upgrade_receptions-IsCounted v db.tables h) (λ _. h)))
        (λ _.
          if-cases (λ (x : Result). IsCounted x.0.tables) (not (insert_reception v db.tables).1)
            (λ known.
              write_side-tables meta env now IsCounted id a _
                (claim_side-IsCounted id a.first_seen_at _)
                (subst IsCounted (sym (insert_reception_known v db.tables (ground (arith, known))))
                  h))
            (λ fresh.
              accept-tables meta env now IsCounted IsCounted id a new _
                (λ d k.
                  write_side-tables meta env now IsCounted id a d
                    (claim_side-IsCounted id a.first_seen_at _) k)
                (insert_reception-IsCounted v a.first_seen_at db.tables h name
                  (ground (arith, fresh)))))

  pub apply_envelope-IsCounted :
      (unchanged : ℕ) (db : IngestDb)
      → IsCounted db.tables
      → IsCounted (apply_envelope meta env now unchanged db).0.tables
  unfolding apply_envelope packet_values
  apply_envelope-IsCounted unchanged db h =
      let a : Arrival = arrival now meta.window_seconds env.packet db.tables.packets in
      let v : PacketRow = packet_values db.tables.next_id now meta env a in
      let up = upsert_packet unchanged v db.tables in
      receive-IsCounted up.1 a (up.2 == 1) _
        (rw backfill_channel-tables (upsert_packet-IsCounted unchanged v db.tables (refl) (refl) h))
        (rw backfill_channel-tables
          (upsert_packet-Names unchanged v db.tables refl (IsCounted-IsKeyed db.tables h)))

apply_items-IsCounted :
    (unchanged : ℕ) (items : List BatchItem) (db : IngestDb) (sink : List LiveEvt)
    → IsCounted db.tables
    → IsCounted (apply_items unchanged items (db, sink)).0.tables
unfolding apply_items
apply_items-IsCounted unchanged [] db sink h = h
apply_items-IsCounted unchanged (i ∷ is) db sink h =
    apply_items-IsCounted unchanged is _ _
      (apply_envelope-IsCounted i.meta i.env i.now unchanged db h)

insert_live_events-tables :
    (evts : List LiveEvt) (db : IngestDb) → (insert_live_events evts db).tables ≡ db.tables
unfolding insert_live_events
insert_live_events-tables [] db = refl
insert_live_events-tables (e ∷ es) db = refl

-- Whatever the deliveries of a chunk are, and whether its transaction commits or is rolled back, it
-- leaves the packets with distinct ids and each with the number of the receptions that name it, if
-- it found them so.
pub commit_chunk-IsCounted :
    (unchanged : ℕ) (commits : Bool) (items : List BatchItem) (db : IngestDb)
    → IsCounted db.tables
    → IsCounted (commit_chunk unchanged commits items db).tables
unfolding commit_chunk
commit_chunk-IsCounted unchanged commits items db h =
    if-cases (λ (d : IngestDb). IsCounted d.tables) commits
      (λ _. rw insert_live_events-tables (apply_items-IsCounted unchanged items db [] h)) (λ _. h)
