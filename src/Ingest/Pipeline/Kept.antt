-- ===== src/Ingest/Pipeline/Kept.antt =====
-- What the steps of a delivery in src/ingest/pipeline.ts keep of the packets and the receptions.
use hop_watch.Prelude.{
  ℕ, ◌≡◌, refl, inl, inr, Bool, true, not, ◌||◌, some, List, str_eq, Option-cases, if-cases,
  is_some,
}
use hop_watch.Ingest.Pipeline.Decoded.{write_decoded}
use hop_watch.Ingest.Pipeline.Side.{SideTables}
use hop_watch.Ingest.Pipeline.Packets.{claim_side, bump_reception_count}
use hop_watch.Ingest.Pipeline.Db.{IngestDb, LiveEvt}
use hop_watch.Ingest.Pipeline.Arrival.{Arrival}
use hop_watch.Ingest.Pipeline.Steps.{
  keep_payload, accept, trace_step, write_side, add_coverage, backfill_channel, sample_hops,
  trace_of, class_of, fix_of, is_real_fix, touch_nodes, add_link, source_of,
}
use hop_watch.Ingest.Pipeline.Envelope.{NormalizedEnvelope, IngestMeta, parsed_of, ParsedPayload}
use hop_watch.Ingest.Pipeline.Rows.{PacketTables}

-- The packets, the receptions and the side tables stay as they are.
abbrev pub Keeps : IngestDb → IngestDb → Type 0
Keeps d db = (d.tables ≡ db.tables) × (d.side ≡ db.side)

module _ (meta : IngestMeta) (env : NormalizedEnvelope) (now : ℕ) where
  pub add_coverage-Keeps : (a : Arrival) (db : IngestDb) → Keeps (add_coverage meta env now a db) db
  unfolding add_coverage
  add_coverage-Keeps a db =
      elim (Option-cases (sample_hops (class_of env) env.packet.hop_start env.packet.hop_limit)) [
        | inl e ↦ rw (e, add_coverage) (refl, refl)
        | inr (hops, e) ↦ elim (Option-cases (fix_of (parsed_of env.packet))) [
          | inl f ↦ rw (e, f, add_coverage) (refl, refl)
          | inr (fix, f) ↦
              rw (e, f, add_coverage)
                (if-cases (λ (d : IngestDb). Keeps d db) (is_real_fix fix.latitude fix.longitude)
                  (λ _. (refl, refl)) (λ _. (refl, refl)))
        ]
      ]

  pub keep_payload-Keeps :
      (id : ℕ) (a : Arrival) (new : Bool) (db : IngestDb)
      → Keeps (keep_payload meta env now id a new db) db
  unfolding keep_payload
  keep_payload-Keeps id a new db = elim (Option-cases env.packet.cipher_text) [
    | inl e ↦ rw (e, keep_payload) (refl, refl)
    | inr (bytes, e) ↦
        rw (e, keep_payload)
          (if-cases (λ (d : IngestDb). Keeps d db) (new || not (is_some env.packet.decoded))
            (λ _. (refl, refl)) (λ _. (refl, refl)))
  ]

  pub trace_step-Keeps :
      (id : ℕ) (new : Bool) (db : IngestDb) → Keeps (trace_step meta env now id new db).0 db
  unfolding trace_step
  trace_step-Keeps id new db = elim (Option-cases (trace_of (parsed_of env.packet))) [
    | inl e ↦ rw (e, trace_step) (refl, refl)
    | inr (tr, e) ↦
        rw (e, trace_step)
          (if-cases (λ (p : IngestDb × List LiveEvt). Keeps p.0 db) new (λ _. (refl, refl))
            (λ _. (refl, refl)))
  ]

  pub backfill_channel-tables :
      (id : ℕ) (new : Bool) (db : IngestDb)
      → (backfill_channel meta env now id new db).tables ≡ db.tables
  unfolding backfill_channel
  backfill_channel-tables id new db =
      if-cases (λ (d : IngestDb). d.tables ≡ db.tables) (new || str_eq env.channel_id "")
        (λ _. refl) (λ _. refl)

  -- A property of the tables that the claim keeps.
  pub write_side-tables {ℓ} :
      (P : PacketTables → Type ℓ) (id : ℕ) (a : Arrival) (db : IngestDb)
      → (P db.tables → P (claim_side id a.first_seen_at db.tables).0)
      → P db.tables
      → P (write_side meta env now id a db).tables
  unfolding write_side
  write_side-tables P id a db claim h = elim (Option-cases (parsed_of env.packet)) [
    | inl e ↦ rw (e, write_side) h
    | inr (parsed, e) ↦
        rw (e, write_side)
          (if-cases (λ (d : IngestDb). P d.tables) (claim_side id a.first_seen_at db.tables).1
            (λ _. claim h) (λ _. claim h))
  ]

  -- What holds of the packets and the side tables together, if the claim keeps it, and winning the
  -- claim pays for writing them.
  pub write_side-both {ℓ} :
      (P : PacketTables → SideTables → Type ℓ) (id : ℕ) (a : Arrival) (db : IngestDb)
      → (P db.tables db.side → P (claim_side id a.first_seen_at db.tables).0 db.side)
      → ((parsed : ParsedPayload)
          → (claim_side id a.first_seen_at db.tables).1 ≡ true
          → P db.tables db.side
          → P
              (claim_side id a.first_seen_at db.tables).0
              (write_decoded (source_of meta env now id a) parsed (db.nodes, db.side)).1)
      → P db.tables db.side
      → P (write_side meta env now id a db).tables (write_side meta env now id a db).side
  unfolding write_side
  write_side-both P id a db claim win h = elim (Option-cases (parsed_of env.packet)) [
    | inl e ↦ rw (e, write_side) h
    | inr (parsed, e) ↦
        rw (e, write_side)
          (if-cases (λ (d : IngestDb). P d.tables d.side)
            (claim_side id a.first_seen_at db.tables).1 (λ won. win parsed won h) (λ _. claim h))
  ]

  -- The tables of a delivery with a payload are those after the claim.
  pub write_side_claims :
      (id : ℕ) (a : Arrival) (db : IngestDb) {parsed : ParsedPayload}
      → parsed_of env.packet ≡ some parsed
      → (write_side meta env now id a db).tables ≡ (claim_side id a.first_seen_at db.tables).0
  unfolding write_side
  write_side_claims id a db e =
      rw (e, write_side)
        (if-cases (λ (d : IngestDb). d.tables ≡ (claim_side id a.first_seen_at db.tables).0)
          (claim_side id a.first_seen_at db.tables).1 (λ _. refl) (λ _. refl))

  pub accept-both {ℓ κ} :
      (P : PacketTables → SideTables → Type ℓ) (Q : PacketTables → SideTables → Type κ) (id : ℕ)
      (a : Arrival) (new : Bool) (db : IngestDb)
      → ((d : IngestDb)
          → P d.tables d.side
          → Q (write_side meta env now id a d).tables (write_side meta env now id a d).side)
      → P (bump_reception_count id a.first_seen_at db.tables) db.side
      → Q (accept meta env now id a new db).0.tables (accept meta env now id a new db).0.side
  unfolding accept
  accept-both P Q id a new db step h =
      let bumped : IngestDb = record db {
        tables = bump_reception_count id a.first_seen_at db.tables;
      } in
      let covered = add_coverage meta env now a bumped in
      let linked : IngestDb = record covered {
        nodes = touch_nodes meta env now a new covered.nodes;
        links = add_link meta env now a covered.links;
      } in
      let written = write_side meta env now id a linked in
      let kept = keep_payload meta env now id a new written in
      let k = add_coverage-Keeps a bumped in
      let p = keep_payload-Keeps id a new written in
      let q = trace_step-Keeps id new kept in
      rw (q.0, q.1, p.0, p.1) (step linked (rw (k.0, k.1) h))

  pub accept-tables {ℓ κ} :
      (P : PacketTables → Type ℓ) (Q : PacketTables → Type κ) (id : ℕ) (a : Arrival) (new : Bool)
      (db : IngestDb)
      → ((d : IngestDb) → P d.tables → Q (write_side meta env now id a d).tables)
      → P (bump_reception_count id a.first_seen_at db.tables)
      → Q (accept meta env now id a new db).0.tables
  accept-tables P Q id a new db step h = accept-both (λ t _. P t) (λ t _. Q t) id a new db step h
