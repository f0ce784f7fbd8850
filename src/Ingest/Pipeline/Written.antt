-- ===== src/Ingest/Pipeline/Written.antt =====
-- That every delivery of src/ingest/pipeline.ts keeps the side tables to one row for a packet.
use hop_watch.Prelude.{
  ℕ, ◌+◌, ◌≤◌, ◌≡◌, refl, sym, subst, ◌∙◌, Bool, true, false, not, Option, none, some, List, [],
  ◌∷◌, arith, ltb, ◌==◌, if◌then◌else◌, if-cases,
}
use hop_watch.Ingest.Pipeline.Statements.{one_if}
use hop_watch.Ingest.Pipeline.Statements.Laws.{All-update_where}
use hop_watch.Ingest.Pipeline.Counted.{Result}
use hop_watch.Ingest.Pipeline.Receptions.{
  upgrade_receptions, reception_values, insert_reception, is_rf,
}
use hop_watch.Ingest.Pipeline.Apply.{apply_envelope, apply_items, receive, BatchItem}
use hop_watch.Ingest.Pipeline.Kept.{write_side-both, accept-both, backfill_channel-tables}
use hop_watch.Ingest.Pipeline.Decoded.{write_decoded}
use hop_watch.Ingest.Pipeline.Claimed.{Names-claim, Names-upgrade, Names-bump, Names-insert}
use hop_watch.Ingest.Pipeline.Packets.{
  claim_side, packet_values, bump_reception_count, upsert_packet, is_packet,
}
use hop_watch.Ingest.Pipeline.Steps.{write_side, source_of, class_of, backfill_channel}
use hop_watch.Ingest.Pipeline.Db.{IngestDb, LiveEvt}
use hop_watch.Ingest.Pipeline.Counts.{insert_reception_known, upsert_packet-Names}
use hop_watch.Ingest.Pipeline.Keyed.{
  claim_side-IsKeyed, upgrade_receptions-IsKeyed, upsert_packet-IsKeyed, bump-IsKeyed,
  insert_reception-IsKeyed,
}
use hop_watch.Ingest.Pipeline.Tally.{IsKeyed, Names}
use hop_watch.Ingest.Pipeline.Side.{SideTables}
use hop_watch.Ingest.Pipeline.Arrival.{Arrival, arrival}
use hop_watch.Ingest.Pipeline.Once.{
  EventTable, WritesOnce, claim_side_lost, claim_side_won, upsert_packet-WritesOnce, events_of,
}
use hop_watch.Ingest.Pipeline.Envelope.{NormalizedEnvelope, IngestMeta, ParsedPayload}
use hop_watch.Ingest.Pipeline.Rows.{PacketTables, ReceptionRow, PacketRow}

module _ {R : Type 0} (table : EventTable R) where
  -- What holds of a delivery's packet while it is stored.
  pub record InHand (id seen : ℕ) (t : PacketTables) (s : SideTables) : Type 0 where
    pub keyed : IsKeyed t
    pub names : Names id seen t
    pub written_once : WritesOnce table t s

  module _ (meta : IngestMeta) (env : NormalizedEnvelope) (now : ℕ) where
    write_side-InHand :
        (id : ℕ) (a : Arrival) (db : IngestDb)
        → InHand id a.first_seen_at db.tables db.side
        → InHand id a.first_seen_at
            (write_side meta env now id a db).tables
            (write_side meta env now id a db).side
    write_side-InHand id a db h =
        write_side-both meta env now (InHand id a.first_seen_at) id a db
          (λ k.
            claimed k db.side
              (claim_side_lost table id a.first_seen_at db.tables db.side k.written_once))
          (λ parsed won k.
            claimed k _
              (written parsed won k (table.write (source_of meta env now id a) parsed) refl))
          h
      where
        claimed :
            InHand id a.first_seen_at db.tables db.side
            → (s : SideTables) → WritesOnce table (claim_side id a.first_seen_at db.tables).0 s
            → InHand id a.first_seen_at (claim_side id a.first_seen_at db.tables).0 s
        claimed k s o = record {
          keyed = claim_side-IsKeyed id a.first_seen_at db.tables k.keyed;
          names = Names-claim id a.first_seen_at db.tables k.names;
          written_once = o;
        }

        written :
            (parsed : ParsedPayload)
            → (claim_side id a.first_seen_at db.tables).1 ≡ true
            → InHand id a.first_seen_at db.tables db.side
            → (o : Option R) → table.write (source_of meta env now id a) parsed ≡ o
            → WritesOnce table
                (claim_side id a.first_seen_at db.tables).0
                (write_decoded (source_of meta env now id a) parsed (db.nodes, db.side)).1
        written parsed won k none e =
            let lost = claim_side_lost table id a.first_seen_at db.tables db.side k.written_once in
            record {
              once =
                  rw (table.write_none (source_of meta env now id a) parsed db.nodes db.side e)
                    lost.once;
              sources_below =
                  rw (table.write_none (source_of meta env now id a) parsed db.nodes db.side e)
                    lost.sources_below;
            }
        written parsed won k (some r) e =
            claim_side_won table id a.first_seen_at db.tables db.side r k.keyed k.names won
              (table.write_source (source_of meta env now id a) parsed e
                ∙ (unfold source_of in refl))
              k.written_once _
              (table.write_some (source_of meta env now id a) parsed db.nodes db.side e)

    InHand-insert :
        (id seen : ℕ) (v : ReceptionRow) (t : PacketTables) (s : SideTables)
        → InHand id seen t s
        → (insert_reception v t).1 ≡ false
        → InHand id seen (insert_reception v t).0 s
    InHand-insert id seen v t s h known =
        subst (λ u. InHand id seen u s) (sym (insert_reception_known v t known)) h

    InHand-upgrade :
        (id seen : ℕ) (v : ReceptionRow) (t : PacketTables) (s : SideTables)
        → InHand id seen t s
        → InHand id seen (upgrade_receptions v t).0 s
    unfolding upgrade_receptions
    InHand-upgrade id seen v t s h = record {
      keyed = upgrade_receptions-IsKeyed v t h.keyed;
      names = Names-upgrade id seen v t h.names;
      written_once = record {
        once = h.written_once.once;
        sources_below = h.written_once.sources_below;
      };
    }

    InHand-bump :
        (id seen : ℕ) (v : ReceptionRow) (t : PacketTables) (s : SideTables)
        → v.packet_id ≡ id
        → InHand id seen t s
        → (insert_reception v t).1 ≡ true
        → InHand id seen (bump_reception_count id seen (insert_reception v t).0) s
    InHand-bump id seen v t s own h fresh = record {
      keyed = bump-IsKeyed id seen _ (insert_reception-IsKeyed v t h.keyed);
      names = Names-bump id seen _ (Names-insert id seen v t h.names);
      written_once =
          unfold bump_reception_count insert_reception in
          record {
            once =
                All-update_where
                  (λ r. events_of table r.id (table.events s) ≤ one_if r.decoded_side_written) _
                  (is_packet id seen) (λ r. record r { reception_count = r.reception_count + 1 })
                  (λ q hit c. c) (λ q off c. c) t.packets h.written_once.once;
            sources_below = h.written_once.sources_below;
          };
    }

    receive-InHand :
        (id : ℕ) (a : Arrival) (new : Bool) (db : IngestDb)
        → InHand id a.first_seen_at db.tables db.side
        → let d = (receive meta env now id a new db).0 in InHand id a.first_seen_at d.tables d.side
    unfolding receive reception_values
    receive-InHand id a new db h =
        let v : ReceptionRow = reception_values id now meta env a (class_of env) in
        let upgrade : PacketTables × ℕ =
          if is_rf meta.transport then upgrade_receptions v db.tables else (db.tables, 0) in
        if-cases (λ (x : Result). InHand id a.first_seen_at x.0.tables x.0.side) (ltb 0 upgrade.1)
          (λ _. write_side-InHand id a _ (
            if-cases (λ (p : PacketTables × ℕ). InHand id a.first_seen_at p.0 db.side)
              (is_rf meta.transport) (λ _. InHand-upgrade id a.first_seen_at v db.tables db.side h)
              (λ _. h)))
          (λ _.
            if-cases (λ (x : Result). InHand id a.first_seen_at x.0.tables x.0.side)
              (not (insert_reception v db.tables).1)
              (λ known.
                write_side-InHand id a _
                  (InHand-insert id a.first_seen_at v db.tables db.side h (ground (arith, known))))
              (λ fresh.
                accept-both meta env now (InHand id a.first_seen_at) (InHand id a.first_seen_at) id
                  a new _ (write_side-InHand id a)
                  (InHand-bump id a.first_seen_at v db.tables db.side refl h
                    (ground (arith, fresh)))))

    apply_envelope-WritesOnce :
        (unchanged : ℕ) (db : IngestDb)
        → IsKeyed db.tables
        → WritesOnce table db.tables db.side
        → let d = (apply_envelope meta env now unchanged db).0 in
          IsKeyed d.tables × WritesOnce table d.tables d.side
    unfolding apply_envelope packet_values
    apply_envelope-WritesOnce unchanged db h once =
        let a : Arrival = arrival now meta.window_seconds env.packet db.tables.packets in
        let v : PacketRow = packet_values db.tables.next_id now meta env a in
        let up = upsert_packet unchanged v db.tables in
        let stored : IngestDb = record db { tables = up.0 } in
        let k = upsert_packet-WritesOnce table unchanged v db.tables db.side refl once in
        let r =
          receive-InHand up.1 a (up.2 == 1) (backfill_channel meta env now up.1 (up.2 == 1) stored)
            (rw backfill_channel-tables (record {
              keyed = upsert_packet-IsKeyed unchanged v db.tables refl h;
              names = upsert_packet-Names unchanged v db.tables refl h;
              written_once = record {
                once = rw (table.backfill meta env now up.1 (up.2 == 1) stored) k.once;
                sources_below =
                    rw (table.backfill meta env now up.1 (up.2 == 1) stored) k.sources_below;
              };
            })) in
        (r.keyed, r.written_once)

  pub apply_items-WritesOnce :
      (unchanged : ℕ) (items : List BatchItem) (db : IngestDb) (sink : List LiveEvt)
      → IsKeyed db.tables
      → WritesOnce table db.tables db.side
      → let d = (apply_items unchanged items (db, sink)).0 in WritesOnce table d.tables d.side
  unfolding apply_items
  apply_items-WritesOnce unchanged [] db sink h once = once
  apply_items-WritesOnce unchanged (i ∷ is) db sink h once =
      let k = apply_envelope-WritesOnce i.meta i.env i.now unchanged db h once in
      apply_items-WritesOnce unchanged is _ _ k.0 k.1
