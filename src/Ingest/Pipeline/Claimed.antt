-- ===== src/Ingest/Pipeline/Claimed.antt =====
-- That src/ingest/pipeline.ts writes the side tables for every packet of which a payload was decoded.
use hop_watch.Prelude.{
  ℕ, ◌+◌, ◌≡◌, refl, Bool, true, not, some, arith, ltb, ◌==◌, if◌then◌else◌, if-cases, All,
}
use hop_watch.Ingest.Pipeline.Counted.{Result}
use hop_watch.Ingest.Pipeline.Kept.{write_side_claims, backfill_channel-tables, accept-tables}
use hop_watch.Ingest.Pipeline.Steps.{write_side, class_of}
use hop_watch.Ingest.Pipeline.Db.{IngestDb}
use hop_watch.Ingest.Pipeline.Statements.Laws.{All-update_where}
use hop_watch.Ingest.Pipeline.Arrival.{Arrival, arrival}
use hop_watch.Ingest.Pipeline.Counts.{upsert_packet-Names}
use hop_watch.Ingest.Pipeline.Tally.{Names, IsKeyed}
use hop_watch.Ingest.Pipeline.Apply.{receive, apply_envelope}
use hop_watch.Ingest.Pipeline.Receptions.{
  insert_reception, upgrade_receptions, reception_values, is_rf,
}
use hop_watch.Ingest.Pipeline.Packets.{
  bump_reception_count, claim_side, is_unwritten, is_packet, packet_values, upsert_packet,
}
use hop_watch.Ingest.Pipeline.Envelope.{NormalizedEnvelope, IngestMeta, parsed_of, ParsedPayload}
use hop_watch.Ingest.Pipeline.Rows.{PacketTables, ReceptionRow, PacketRow}

abbrev pub IsClaimed : ℕ → PacketTables → Type 0
IsClaimed id t = All (λ r. r.id ≡ id → r.decoded_side_written ≡ true) t.packets

claim_side-IsClaimed :
    (id seen : ℕ) (t : PacketTables) → Names id seen t → IsClaimed id (claim_side id seen t).0
unfolding claim_side is_unwritten is_packet
claim_side-IsClaimed id seen t name =
    All-update_where (λ r. r.id ≡ id → r.first_seen_at ≡ seen) _ (is_unwritten id seen)
      (λ r. record r { decoded_side_written = true }) (λ r hit then_seen same. refl)
      (λ r off then_seen same.
        unfold is_unwritten is_packet in ground (arith, off, same, then_seen same))
      t.packets name.seen_then

pub Names-bump :
    (id seen : ℕ) (t : PacketTables)
    → Names id seen t
    → Names id seen (bump_reception_count id seen t)
unfolding bump_reception_count
Names-bump id seen t name = record {
  known = name.known;
  seen_then =
      All-update_where (λ r. r.id ≡ id → r.first_seen_at ≡ seen) _ (is_packet id seen)
        (λ r. record r { reception_count = r.reception_count + 1 }) (λ r hit f. f) (λ r off f. f)
        t.packets name.seen_then;
}

pub Names-upgrade :
    (id seen : ℕ) (v : ReceptionRow) (t : PacketTables)
    → Names id seen t
    → Names id seen (upgrade_receptions v t).0
unfolding upgrade_receptions
Names-upgrade id seen v t name = record { known = name.known; seen_then = name.seen_then }

pub Names-insert :
    (id seen : ℕ) (v : ReceptionRow) (t : PacketTables)
    → Names id seen t
    → Names id seen (insert_reception v t).0
unfolding insert_reception
Names-insert id seen v t name = record { known = name.known; seen_then = name.seen_then }

pub Names-claim :
    (id seen : ℕ) (t : PacketTables) → Names id seen t → Names id seen (claim_side id seen t).0
unfolding claim_side
Names-claim id seen t name = record {
  known = name.known;
  seen_then =
      All-update_where (λ r. r.id ≡ id → r.first_seen_at ≡ seen) _ (is_unwritten id seen)
        (λ r. record r { decoded_side_written = true }) (λ r hit f. f) (λ r off f. f) t.packets
        name.seen_then;
}

module _ (meta : IngestMeta) (env : NormalizedEnvelope) (now : ℕ) {parsed : ParsedPayload}
    (some_payload : parsed_of env.packet ≡ some parsed) where
  write_side-IsClaimed :
      (id : ℕ) (a : Arrival) (db : IngestDb)
      → Names id a.first_seen_at db.tables
      → IsClaimed id (write_side meta env now id a db).tables
  write_side-IsClaimed id a db name =
      rw (write_side_claims meta env now id a db some_payload)
        (claim_side-IsClaimed id a.first_seen_at db.tables name)

  receive-IsClaimed :
      (id : ℕ) (a : Arrival) (new : Bool) (db : IngestDb)
      → Names id a.first_seen_at db.tables
      → IsClaimed id (receive meta env now id a new db).0.tables
  unfolding receive
  receive-IsClaimed id a new db name =
      let v : ReceptionRow = reception_values id now meta env a (class_of env) in
      let upgrade : PacketTables × ℕ =
        if is_rf meta.transport then upgrade_receptions v db.tables else (db.tables, 0) in
      if-cases (λ (x : Result). IsClaimed id x.0.tables) (ltb 0 upgrade.1)
        (λ _. write_side-IsClaimed id a _ (
          if-cases (λ (p : PacketTables × ℕ). Names id a.first_seen_at p.0) (is_rf meta.transport)
            (λ _. Names-upgrade id a.first_seen_at v db.tables name) (λ _. name)))
        (λ _.
          if-cases (λ (x : Result). IsClaimed id x.0.tables) (not (insert_reception v db.tables).1)
            (λ known.
              write_side-IsClaimed id a _ (Names-insert id a.first_seen_at v db.tables name))
            (λ fresh.
              accept-tables meta env now (Names id a.first_seen_at) (IsClaimed id) id a new _
                (write_side-IsClaimed id a)
                (Names-bump id a.first_seen_at _
                  (Names-insert id a.first_seen_at v db.tables name))))

  pub receive-packet_id :
      (id : ℕ) (a : Arrival) (new : Bool) (db : IngestDb)
      → (receive meta env now id a new db).2.packet_id ≡ id
  unfolding receive
  receive-packet_id id a new db =
      let v : ReceptionRow = reception_values id now meta env a (class_of env) in
      let upgrade : PacketTables × ℕ =
        if is_rf meta.transport then upgrade_receptions v db.tables else (db.tables, 0) in
      if-cases (λ (x : Result). x.2.packet_id ≡ id) (ltb 0 upgrade.1) (λ _. refl)
        (λ _.
          if-cases (λ (x : Result). x.2.packet_id ≡ id) (not (insert_reception v db.tables).1)
            (λ _. refl) (λ _. refl))

  -- On every branch, when a delivery has a decoded payload that could be read, the packet that it is a
  -- copy of has its side tables written when it is stored: none is left decoded and without them.
  pub apply_envelope-IsClaimed :
      (unchanged : ℕ) (db : IngestDb)
      → IsKeyed db.tables
      → let (db', evts, outcome) = apply_envelope meta env now unchanged db in
        IsClaimed outcome.packet_id db'.tables
  unfolding apply_envelope packet_values
  apply_envelope-IsClaimed unchanged db h =
      let a : Arrival = arrival now meta.window_seconds env.packet db.tables.packets in
      let v : PacketRow = packet_values db.tables.next_id now meta env a in
      let up = upsert_packet unchanged v db.tables in
      rw receive-packet_id (
        receive-IsClaimed up.1 a (up.2 == 1) _
          (rw backfill_channel-tables (upsert_packet-Names unchanged v db.tables refl h)))
