-- ===== src/Ingest/Pipeline/Redelivered.antt =====
-- That src/ingest/pipeline.ts stores a delivery once, when it is handed the same one again.
use hop_watch.Prelude.{
  ℕ, ◌≤◌, ◌<◌, ◌≡◌, refl, sym, ap, ◌∙◌, Bool, true, false, not, List, [], arith, ltb, ◌==◌,
  if◌then◌else◌, if-cases, any,
}
use hop_watch.Ingest.Pipeline.Again.{same_place, rolling_copy-same, upsert_packet-place}
use hop_watch.Ingest.Pipeline.Counts.{insert_reception_known}
use mathlib.Core.Bool.{false≢true}
use hop_watch.Ingest.Pipeline.Kept.{write_side-tables, accept-tables, backfill_channel-tables}
use hop_watch.Ingest.Pipeline.Counted.{Result}
use hop_watch.Ingest.Pipeline.Steps.{class_of, backfill_channel}
use hop_watch.Ingest.Pipeline.Db.{IngestDb}
use hop_watch.Ingest.Pipeline.Arrival.{
  Arrival, is_plausible, reported_ms, arrival, has_mesh_id, rx_time_of, bucket_of, rolling_copy,
  first_seen_of,
}
use hop_watch.Ingest.Pipeline.Apply.{receive, apply_envelope}
use hop_watch.Ingest.Pipeline.Receptions.{
  same_reception, insert_reception, is_rf, reception_values, upgrade_receptions,
}
use hop_watch.Ingest.Pipeline.Packets.{upsert_packet, packet_values}
use hop_watch.Ingest.Pipeline.Keys.{keys, key_found, find_row-same}
use hop_watch.Ingest.Pipeline.Envelope.{NormalizedPacket, NormalizedEnvelope, IngestMeta, mqtt}
use hop_watch.Ingest.Pipeline.Rows.{PacketTables, ReceptionRow, PacketRow}
use hop_watch.Ingest.Pipeline.Revisited.{
  same_packet_cong, same_reception_cong, insert_reception-any, found_id, upsert_packet-id,
  upsert_packet-found, Stays, Stays-claim, Stays-bump, not_upgraded, write_side-receptions,
  upsert_packet-receptions,
}

-- What is computed of a delivery with a plausible clock.
arrival_of :
    (now w : ℕ) (p : NormalizedPacket) (rows : List PacketRow)
    → is_plausible now (reported_ms p) ≡ true
    → let rx = reported_ms p in
      ((arrival now w p rows).bucket ≡ bucket_of w rx (rolling_copy w rx p rows))
      × ((arrival now w p rows).first_seen_at ≡ first_seen_of w rx p (rolling_copy w rx p rows))
      × ((arrival now w p rows).rx_row_time ≡ rx)
unfolding arrival rx_time_of
arrival_of now w p rows ok = rw ok (refl, refl, refl)

plausible_later :
    (now now' rx : ℕ) → now ≤ now' → is_plausible now rx ≡ true → is_plausible now' rx ≡ true
unfolding is_plausible
plausible_later now now' rx h ok = ground (arith, ok)

module _ (meta : IngestMeta) (env : NormalizedEnvelope) (over_mqtt : meta.transport ≡ mqtt) where
  -- A delivery over MQTT leaves its reception behind.
  receive-Stays :
      (now id : ℕ) (a : Arrival) (new : Bool) (db : IngestDb)
      → Stays
          (reception_values id now meta env a (class_of env))
          (keys db.tables.packets)
          (receive meta env now id a new db).0.tables
  unfolding receive
  receive-Stays now id a new db =
      let v : ReceptionRow = reception_values id now meta env a (class_of env) in
      let upgrade : PacketTables × ℕ =
        if is_rf meta.transport then upgrade_receptions v db.tables else (db.tables, 0) in
      let inserted : Stays v (keys db.tables.packets) (insert_reception v db.tables).0 =
        (unfold insert_reception in refl, insert_reception-any v db.tables) in
      if-cases (λ (x : Result). Stays v (keys db.tables.packets) x.0.tables) (ltb 0 upgrade.1)
        (λ some_row. absurd (
          false≢true (
            sym (not_upgraded meta.transport (upgrade_receptions v db.tables) db.tables over_mqtt)
            ∙ some_row)))
        (λ _.
          if-cases (λ (x : Result). Stays v (keys db.tables.packets) x.0.tables)
            (not (insert_reception v db.tables).1)
            (λ _.
              write_side-tables meta env now (Stays v (keys db.tables.packets)) id a _
                (Stays-claim v _ id a.first_seen_at _) inserted)
            (λ _.
              accept-tables meta env now (Stays v (keys db.tables.packets))
                (Stays v (keys db.tables.packets)) id a new _
                (λ d k.
                  write_side-tables meta env now (Stays v (keys db.tables.packets)) id a d
                    (Stays-claim v _ id a.first_seen_at _) k)
                (Stays-bump v _ id a.first_seen_at _ inserted)))

  -- A reception that is there is not stored again.
  abbrev StoresNothing : IngestDb → Result → Type 0
  StoresNothing db x =
      (x.2.new_reception ≡ false) × (x.1 ≡ []) × (x.0.tables.receptions ≡ db.tables.receptions)

  receive_known :
      (now id : ℕ) (a : Arrival) (new : Bool) (db : IngestDb)
      → any
          (same_reception (reception_values id now meta env a (class_of env)))
          db.tables.receptions
        ≡ true
      → StoresNothing db (receive meta env now id a new db)
  unfolding receive
  receive_known now id a new db there =
      let v : ReceptionRow = reception_values id now meta env a (class_of env) in
      let upgrade : PacketTables × ℕ =
        if is_rf meta.transport then upgrade_receptions v db.tables else (db.tables, 0) in
      let known : (insert_reception v db.tables).1 ≡ false =
        (unfold insert_reception in rw there refl) in
      if-cases (StoresNothing db) (ltb 0 upgrade.1)
        (λ some_row. absurd (
          false≢true (
            sym (not_upgraded meta.transport (upgrade_receptions v db.tables) db.tables over_mqtt)
            ∙ some_row)))
        (λ _.
          if-cases (StoresNothing db) (not (insert_reception v db.tables).1)
            (λ _. (
              refl,
              refl,
              write_side-receptions meta env now id a _
                  ∙ ap (λ (t : PacketTables). t.receptions)
                      (insert_reception_known v db.tables known),
            ))
            (λ fresh. absurd (ground (arith, known, fresh))))

  -- What the first of the two deliveries leaves.
  first_run :
      (now unchanged : ℕ) (db : IngestDb)
      → let a = arrival now meta.window_seconds env.packet db.tables.packets in
        let up =
          upsert_packet unchanged (packet_values db.tables.next_id now meta env a) db.tables in
        Stays
          (reception_values up.1 now meta env a (class_of env))
          (keys up.0.packets)
          (apply_envelope meta env now unchanged db).0.tables
  unfolding apply_envelope
  first_run now unchanged db =
      let a = arrival now meta.window_seconds env.packet db.tables.packets in
      let up = upsert_packet unchanged (packet_values db.tables.next_id now meta env a) db.tables in
      let s =
        receive-Stays now up.1 a (up.2 == 1)
          (backfill_channel meta env now up.1 (up.2 == 1) (record db { tables = up.0 })) in
      (
        s.0
            ∙ ap (λ (t : PacketTables). keys t.packets)
                (backfill_channel-tables meta env now up.1 (up.2 == 1)
                  (record db { tables = up.0 })),
        s.1,
      )

  -- The second delivery is given the place of the first.
  second_place :
      (now unchanged : ℕ) (db : IngestDb) (rows : List PacketRow)
      → 0 < meta.window_seconds
      → has_mesh_id env.packet ≡ true
      → is_plausible now (reported_ms env.packet) ≡ true
      → let a = arrival now meta.window_seconds env.packet db.tables.packets in
        let rx = reported_ms env.packet in
        keys rows
          ≡ keys
              (upsert_packet unchanged
                (packet_values db.tables.next_id now meta env a)
                db.tables).0.packets
        → (bucket_of meta.window_seconds rx (rolling_copy meta.window_seconds rx env.packet rows)
            ≡ a.bucket)
          × (first_seen_of meta.window_seconds rx env.packet
                (rolling_copy meta.window_seconds rx env.packet rows)
              ≡ a.first_seen_at)
  second_place now unchanged db rows pos ided ok same =
      let a = arrival now meta.window_seconds env.packet db.tables.packets in
      let v = packet_values db.tables.next_id now meta env a in
      let k = arrival_of now meta.window_seconds env.packet db.tables.packets ok in
      let moved =
        same_place meta.window_seconds (reported_ms env.packet) env.packet _ _
          (rolling_copy-same meta.window_seconds (reported_ms env.packet) env.packet rows _ same) in
      let place =
        upsert_packet-place meta.window_seconds (reported_ms env.packet) unchanged env.packet v
          db.tables pos ided (unfold packet_values in refl) (unfold packet_values in refl)
          (unfold packet_values in k.0) (unfold packet_values in k.1) in
      (moved.0 ∙ place.0 ∙ sym k.0, moved.1 ∙ place.1 ∙ sym k.1)

  -- A delivery over MQTT with a packet id and a plausible clock that is handed in again, later on the
  -- clock and with nothing in between, stores no reception and emits no event.
  pub apply_envelope_again :
      (now now' unchanged unchanged' : ℕ) (db : IngestDb)
      → 0 < meta.window_seconds
      → has_mesh_id env.packet ≡ true
      → is_plausible now (reported_ms env.packet) ≡ true
      → now ≤ now'
      → let db1 = (apply_envelope meta env now unchanged db).0 in
        let (db2, evts, outcome) = apply_envelope meta env now' unchanged' db1 in
        (outcome.new_reception ≡ false)
        × (evts ≡ [])
        × (db2.tables.receptions ≡ db1.tables.receptions)
  apply_envelope_again now now' unchanged unchanged' db pos ided ok later =
      let p = env.packet in
      let w = meta.window_seconds in
      let a = arrival now w p db.tables.packets in
      let v = packet_values db.tables.next_id now meta env a in
      let up = upsert_packet unchanged v db.tables in
      let db1 = (apply_envelope meta env now unchanged db).0 in
      let a' = arrival now' w p db1.tables.packets in
      let v' = packet_values db1.tables.next_id now' meta env a' in
      let up' = upsert_packet unchanged' v' db1.tables in
      let stored : IngestDb = record db1 { tables = up'.0 } in
      let db' = backfill_channel meta env now' up'.1 (up'.2 == 1) stored in
      let f = first_run now unchanged db in
      let place = second_place now unchanged db db1.tables.packets pos ided ok f.0 in
      let k = arrival_of now w p db.tables.packets ok in
      let k' =
        arrival_of now' w p db1.tables.packets
          (plausible_later now now' (reported_ms p) later ok) in
      let same_id : up'.1 ≡ up.1 =
        upsert_packet-id unchanged' v' db1.tables
        ∙ ap (λ o. found_id v'.id (key_found o))
            (same_packet_cong v' v db1.tables.packets (unfold packet_values in refl)
              (unfold packet_values in refl) (unfold packet_values in (k'.0 ∙ place.0))
              (unfold packet_values in (k'.1 ∙ place.1)))
        ∙ ap (found_id v'.id) (find_row-same v db1.tables.packets up.0.packets f.0)
        ∙ upsert_packet-found unchanged v'.id v db.tables in
      let kept : db'.tables.receptions ≡ db1.tables.receptions =
        ap (λ (t : PacketTables). t.receptions)
          (backfill_channel-tables meta env now' up'.1 (up'.2 == 1) stored)
        ∙ upsert_packet-receptions unchanged' v' db1.tables in
      let there : any (same_reception (reception_values up'.1 now' meta env a' (class_of env)))
            db'.tables.receptions
          ≡ true =
        ap (any (same_reception (reception_values up'.1 now' meta env a' (class_of env)))) kept
        ∙ same_reception_cong (reception_values up'.1 now' meta env a' (class_of env))
            (reception_values up.1 now meta env a (class_of env)) db1.tables.receptions
            (unfold reception_values in same_id) (unfold reception_values in refl)
            (unfold reception_values in (k'.2 ∙ sym k.2))
        ∙ f.1 in
      let r = receive_known now' up'.1 a' (up'.2 == 1) db' there in
      unfold apply_envelope in (r.0, r.1, r.2 ∙ kept)
