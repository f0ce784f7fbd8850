-- ===== src/Ingest/Pipeline/Stored.antt =====
-- That src/ingest/pipeline.ts writes what a payload says when it is first decoded.
use hop_watch.Prelude.{
  ℕ, ◌+◌, ◌≡◌, refl, sym, ap, subst, ◌∙◌, Bool, not, ◌&&◌, some, List, ltb, ◌==◌, if◌then◌else◌,
  if-cases,
}
use hop_watch.Ingest.Pipeline.Counted.{Result}
use hop_watch.Ingest.Pipeline.Rows.{PacketRow, ReceptionRow, PacketTables}
use hop_watch.Ingest.Pipeline.Receptions.{
  upgrade_receptions, insert_reception, is_rf, reception_values,
}
use hop_watch.Ingest.Pipeline.Packets.{
  packet_values, upsert_packet, claim_side, bump_reception_count, is_packet,
}
use hop_watch.Ingest.Pipeline.Keyed.{
  bump-IsKeyed, upgrade_receptions-IsKeyed, insert_reception-IsKeyed,
}
use hop_watch.Ingest.Pipeline.Kept.{accept-both, backfill_channel-tables}
use hop_watch.Ingest.Pipeline.Claimed.{
  Names-upgrade, Names-bump, Names-insert, IsClaimed, apply_envelope-IsClaimed, receive-packet_id,
}
use hop_watch.Ingest.Pipeline.Steps.{write_side, source_of, class_of, backfill_channel}
use hop_watch.Ingest.Pipeline.Decoded.{write_decoded}
use hop_watch.Ingest.Pipeline.Side.{SideTables}
use hop_watch.Ingest.Pipeline.Db.{IngestDb}
use hop_watch.Ingest.Pipeline.Arrival.{Arrival, arrival}
use hop_watch.Ingest.Pipeline.Apply.{receive, apply_envelope}
use hop_watch.Ingest.Pipeline.Envelope.{NormalizedEnvelope, IngestMeta, parsed_of, ParsedPayload}
use hop_watch.Ingest.Pipeline.Tally.{IsKeyed}
use hop_watch.Ingest.Pipeline.Marked.{
  IsReady, earlier, here, IsStored, any-update_where, claim_lost, IsReady-upsert, IsStored, here,
  earlier,
}

module _ (meta : IngestMeta) (env : NormalizedEnvelope) (now : ℕ) {parsed : ParsedPayload}
    (some_payload : parsed_of env.packet ≡ some parsed) (id : ℕ) (a : Arrival)
    (before : List PacketRow) (found : SideTables) where
  abbrev Ready : PacketTables → SideTables → Type 0
  Ready = IsReady id a.first_seen_at before found

  abbrev Done : PacketTables → SideTables → Type 0
  Done t s = IsStored (source_of meta env now id a) parsed before found s

  write_side-IsStored :
      (db : IngestDb)
      → Ready db.tables db.side
      → Done (write_side meta env now id a db).tables (write_side meta env now id a db).side
  unfolding write_side source_of
  write_side-IsStored db h =
      rw (some_payload, write_side)
        (if-cases
          (λ (d : IngestDb). IsStored (source_of meta env now id a) parsed before found d.side)
          (claim_side id a.first_seen_at db.tables).1
          (λ won. here db.nodes (
            ap (λ s. (write_decoded (source_of meta env now id a) parsed (db.nodes, s)).1)
              h.untouched))
          (λ lost.
            earlier
              (h.earlier (claim_lost id a.first_seen_at db.tables h.keyed h.names h.there lost))))

  Ready-upgrade :
      (v : ReceptionRow) (t : PacketTables) (s : SideTables)
      → Ready t s
      → Ready (upgrade_receptions v t).0 s
  unfolding upgrade_receptions
  Ready-upgrade v t s h = record {
    keyed = upgrade_receptions-IsKeyed v t h.keyed;
    names = Names-upgrade id a.first_seen_at v t h.names;
    there = h.there;
    earlier = h.earlier;
    untouched = h.untouched;
  }

  Ready-insert :
      (v : ReceptionRow) (t : PacketTables) (s : SideTables)
      → Ready t s
      → Ready (insert_reception v t).0 s
  unfolding insert_reception
  Ready-insert v t s h = record {
    keyed = insert_reception-IsKeyed v t h.keyed;
    names = Names-insert id a.first_seen_at v t h.names;
    there = h.there;
    earlier = h.earlier;
    untouched = h.untouched;
  }

  Ready-bump :
      (t : PacketTables) (s : SideTables)
      → Ready t s
      → Ready (bump_reception_count id a.first_seen_at t) s
  unfolding bump_reception_count
  Ready-bump t s h =
      let bump : PacketRow → PacketRow =
        λ r. record r { reception_count = r.reception_count + 1 } in
      let at = is_packet id a.first_seen_at in
      record {
        keyed = bump-IsKeyed id a.first_seen_at t h.keyed;
        names = Names-bump id a.first_seen_at t h.names;
        there = any-update_where (λ r. r.id == id) at bump (λ r. refl) t.packets ∙ h.there;
        earlier = λ w. h.earlier (
            sym (
              any-update_where (λ r. r.id == id && r.decoded_side_written) at bump (λ r. refl)
                t.packets)
            ∙ w);
        untouched = h.untouched;
      }

  receive-IsStored :
      (new : Bool) (db : IngestDb)
      → Ready db.tables db.side
      → let d = (receive meta env now id a new db).0 in Done d.tables d.side
  unfolding receive
  receive-IsStored new db h =
      let v : ReceptionRow = reception_values id now meta env a (class_of env) in
      let upgrade : PacketTables × ℕ =
        if is_rf meta.transport then upgrade_receptions v db.tables else (db.tables, 0) in
      if-cases (λ (x : Result). Done x.0.tables x.0.side) (ltb 0 upgrade.1)
        (λ _. write_side-IsStored _ (
          if-cases (λ (p : PacketTables × ℕ). Ready p.0 db.side) (is_rf meta.transport)
            (λ _. Ready-upgrade v db.tables db.side h) (λ _. h)))
        (λ _.
          if-cases (λ (x : Result). Done x.0.tables x.0.side) (not (insert_reception v db.tables).1)
            (λ _. write_side-IsStored _ (Ready-insert v db.tables db.side h))
            (λ _.
              accept-both meta env now Ready Done id a new _ write_side-IsStored
                (Ready-bump _ _ (Ready-insert v db.tables db.side h))))

module _ (meta : IngestMeta) (env : NormalizedEnvelope) (now : ℕ) where
  -- The clock readings of a delivery, and the side tables once a channel has been filled in.
  abbrev pub arrival_in : IngestDb → Arrival
  arrival_in db = arrival now meta.window_seconds env.packet db.tables.packets

  abbrev upserted : ℕ → IngestDb → PacketTables × ℕ × ℕ
  upserted unchanged db =
      upsert_packet unchanged (packet_values db.tables.next_id now meta env (arrival_in db))
        db.tables

  pub side_found : ℕ → IngestDb → SideTables
  side_found unchanged db =
      let up = upserted unchanged db in
      (backfill_channel meta env now up.1 (up.2 == 1) (record db { tables = up.0 })).side

module _ (meta : IngestMeta) (env : NormalizedEnvelope) (now : ℕ) {parsed : ParsedPayload}
    (some_payload : parsed_of env.packet ≡ some parsed) where
  -- A delivery whose payload was decoded and could be read leaves its packet marked as written.
  -- Either the packet was marked before the delivery came, or the delivery has left the side tables
  -- as writeDecoded makes them of this payload and of what it found there, a channel name filled in
  -- included. This is so on every branch, if the packets' ids are distinct and among those given
  -- out.
  pub apply_envelope-IsStored :
      (unchanged : ℕ) (db : IngestDb)
      → IsKeyed db.tables
      → let (db', evts, outcome) = apply_envelope meta env now unchanged db in
        IsClaimed outcome.packet_id db'.tables
        × IsStored
            (source_of meta env now outcome.packet_id (arrival_in meta env now db))
            parsed
            db.tables.packets
            (side_found meta env now unchanged db)
            db'.side
  unfolding apply_envelope packet_values side_found
  apply_envelope-IsStored unchanged db h = (
    apply_envelope-IsClaimed meta env now some_payload unchanged db h,
    subst
        (λ id.
          IsStored (source_of meta env now id (arrival_in meta env now db)) parsed db.tables.packets
            (side_found meta env now unchanged db)
            (apply_envelope meta env now unchanged db).0.side)
        (sym (
          receive-packet_id meta env now some_payload up.1 (arrival_in meta env now db) (up.2 == 1)
            _))
        (receive-IsStored meta env now some_payload up.1 (arrival_in meta env now db)
          db.tables.packets (side_found meta env now unchanged db) (up.2 == 1) _
          (rw backfill_channel-tables (
            let r =
              IsReady-upsert unchanged v db.tables (side_found meta env now unchanged db) refl refl
                h in
            record {
              keyed = r.keyed;
              names = r.names;
              there = r.there;
              earlier = r.earlier;
              untouched = refl;
            }))),
  )
    where
      v : PacketRow
      v = packet_values db.tables.next_id now meta env (arrival_in meta env now db)

      up : PacketTables × ℕ × ℕ
      up = upsert_packet unchanged v db.tables
