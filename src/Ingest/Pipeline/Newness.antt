-- ===== src/Ingest/Pipeline/Newness.antt =====
-- Which deliveries src/ingest/pipeline.ts takes for new packets.
use hop_watch.Prelude.{
  ℕ, ◌+◌, ◌≡◌, refl, sym, ap, subst, ◌∙◌, ◌↔◌, ◌⊎◌, inl, inr, Bool, true, false, not, ◌&&◌, ◌||◌,
  Option, none, some, List, [], ◌∷◌, ◌++◌, arith, ltb, ◌==◌, if◌then◌else◌, ==_iff, Option-cases,
  if-cases,
}
use hop_watch.Ingest.Pipeline.Statements.{coalesce, find_row, update_where}
use hop_watch.Ingest.Pipeline.Packets.{
  gains, same_status, is_decoded, packet_values, upsert_packet, has_same_key, is_changed,
  merge_packet,
}
use hop_watch.Ingest.Pipeline.Envelope.{NormalizedEnvelope, IngestMeta}
use hop_watch.Ingest.Pipeline.Arrival.{Arrival, arrival}
use hop_watch.Ingest.Pipeline.Apply.{outcome_of, receive, apply_envelope}
use hop_watch.Ingest.Pipeline.Counted.{Result}
use hop_watch.Ingest.Pipeline.Db.{IngestDb, LiveEvt}
use hop_watch.Ingest.Pipeline.Steps.{class_of, backfill_channel}
use hop_watch.Ingest.Pipeline.Receptions.{
  reception_values, is_rf, upgrade_receptions, insert_reception,
}
use hop_watch.Ingest.Pipeline.Rows.{
  DecodeStatus, decoded, encrypted, malformed, ReceptionRow, PacketRow, PacketTables,
}

affected_one : (b : Bool) (n : ℕ) → ((if b then 2 else n) ≡ 1) ↔ ((n ≡ 1) × (b ≡ false))
affected_one true n = (λ h. absurd (omega (arith, h)), λ h. absurd (cc))
affected_one false n = (λ h. (h, refl), λ h. h.0)

-- The driver's count is one exactly when no row has its key, or when the driver reports one
-- affected row for an upsert that changes nothing, and the delivery changes nothing of its row.
pub upsert_packet-new :
    (unchanged : ℕ) (v : PacketRow) (t : PacketTables)
    → ((upsert_packet unchanged v t).2 ≡ 1) ↔ (
        (find_row (has_same_key v) t.packets ≡ none)
        ⊎ ((unchanged ≡ 1)
            × ((r : PacketRow) × (find_row (has_same_key v) t.packets ≡ some r)
                × (is_changed v r ≡ false))))
unfolding upsert_packet
upsert_packet-new unchanged v t = elim (Option-cases (find_row (has_same_key v) t.packets)) [
  | inl e ↦ (λ _. inl e, λ _. rw (e, upsert_packet) refl)
  | inr (r, e) ↦ (
    λ h.
        let k =
          (affected_one (is_changed v r) unchanged).0
            (subst (λ (o : Option PacketRow). affected o ≡ 1) e h) in
        inr (k.0, (r, e, k.1)),
    λ h. elim h [
      | inl missing ↦ absurd (cc)
      | inr (one, (q, f, same)) ↦
          let here : q ≡ r =
            ap (λ (o : Option PacketRow). elim o [ none ↦ r | some x ↦ x ]) (sym f ∙ e) in
          rw (e, upsert_packet)
            ((affected_one (is_changed v r) unchanged).1
              (one, subst (λ x. is_changed v x ≡ false) here same))
    ],
  )
]
  where
    affected : Option PacketRow → ℕ
    affected o =
        (elim o as (λ _. PacketTables × ℕ × ℕ) [
          | none ↦ (record t { packets = t.packets ++ v ∷ []; next_id = t.next_id + 1 }, v.id, 1)
          | some r ↦ (
            record t { packets = update_where (has_same_key v) (merge_packet v) t.packets },
            r.id,
            (if is_changed v r then 2 else unchanged),
          )
        ]).2

gains-coalesce :
    {A : Type 0} (old new : Option A) → (gains old new ≡ false) ↔ (coalesce old new ≡ old)
unfolding gains
gains-coalesce none none = (λ _. refl, λ _. refl)
gains-coalesce none (some x) = (λ h. absurd (cc), λ h. absurd (cc))
gains-coalesce (some o) new = (λ _. refl, λ _. refl)

status_kept :
    (old new : DecodeStatus)
    → ((not (is_decoded old) && not (same_status old new)) ≡ false)
      ↔ ((if is_decoded old then decoded else new) ≡ old)
unfolding is_decoded same_status
status_kept decoded new = (λ _. refl, λ _. refl)
status_kept encrypted decoded = (λ h. absurd (cc), λ h. absurd (cc))
status_kept encrypted encrypted = (λ _. refl, λ _. refl)
status_kept encrypted malformed = (λ h. absurd (cc), λ h. absurd (cc))
status_kept malformed decoded = (λ h. absurd (cc), λ h. absurd (cc))
status_kept malformed encrypted = (λ h. absurd (cc), λ h. absurd (cc))
status_kept malformed malformed = (λ _. refl, λ _. refl)

five :
    (a b c d e : Bool)
    → ((a || b || c || d || e) ≡ false)
      ↔ ((a ≡ false) × (b ≡ false) × (c ≡ false) × (d ≡ false) × (e ≡ false))
five a b c d e = (
  λ h. (ground arith, ground arith, ground arith, ground arith, ground arith),
  λ (p, q, r, s, t). ground arith,
)

-- The test is that of the merge.
is_changed-merge_packet : (v r : PacketRow) → (is_changed v r ≡ false) ↔ (merge_packet v r ≡ r)
unfolding is_changed merge_packet
is_changed-merge_packet v r = (
  λ h.
      let (a, b, c, d, e) = (five _ _ _ _ _).0 h in
      let pa = (gains-coalesce r.first_reception_at v.first_reception_at).0 a in
      let pb = (gains-coalesce r.port_num v.port_num).0 b in
      let pc = (gains-coalesce r.channel_id v.channel_id).0 c in
      let pd = (gains-coalesce r.channel_index v.channel_index).0 d in
      let pe = (status_kept r.decode_status v.decode_status).0 e in
      λ i. record r {
        first_reception_at = pa i;
        port_num = pb i;
        channel_id = pc i;
        channel_index = pd i;
        decode_status = pe i;
      },
  λ m. (five _ _ _ _ _).1 (
    (gains-coalesce r.first_reception_at v.first_reception_at).1 (ap (λ x. x.first_reception_at) m),
    (gains-coalesce r.port_num v.port_num).1 (ap (λ x. x.port_num) m),
    (gains-coalesce r.channel_id v.channel_id).1 (ap (λ x. x.channel_id) m),
    (gains-coalesce r.channel_index v.channel_index).1 (ap (λ x. x.channel_index) m),
    (status_kept r.decode_status v.decode_status).1 (ap (λ x. x.decode_status) m),
  ),
)

-- What is reported of a delivery whose upsert was taken for an insert, or not.
record IsReported (new : Bool) (x : Result) : Type 0 where
  same : x.2.new_packet ≡ (x.2.new_reception && new)

module _ (meta : IngestMeta) (env : NormalizedEnvelope) (now : ℕ) where
  known_copy :
      (new : Bool) (d : IngestDb) (evts : List LiveEvt) (id : ℕ)
      → IsReported new (d, evts, outcome_of meta env now false false id)
  known_copy new d evts id = record { same = refl }

  fresh_copy :
      (new : Bool) (d : IngestDb) (evts : List LiveEvt) (id : ℕ)
      → IsReported new (d, evts, outcome_of meta env now new true id)
  fresh_copy new d evts id = record { same = refl }

  receive-IsReported :
      (id : ℕ) (a : Arrival) (new : Bool) (db : IngestDb)
      → IsReported new (receive meta env now id a new db)
  unfolding receive
  receive-IsReported id a new db =
      let v : ReceptionRow = reception_values id now meta env a (class_of env) in
      let upgrade : PacketTables × ℕ =
        if is_rf meta.transport then upgrade_receptions v db.tables else (db.tables, 0) in
      if-cases (IsReported new) (ltb 0 upgrade.1) (λ _. known_copy new _ _ id)
        (λ _.
          if-cases (IsReported new) (not (insert_reception v db.tables).1)
            (λ _. known_copy new _ _ id) (λ _. fresh_copy new _ _ id))

  -- The row that the delivery would insert.
  abbrev pub row_of : IngestDb → PacketRow
  row_of db =
      packet_values db.tables.next_id now meta env
        (arrival now meta.window_seconds env.packet db.tables.packets)

  -- A delivery is reported as a new packet exactly when it is reported as a new reception and either
  -- no packet has its key, or the driver counts one affected row for an upsert that changes nothing
  -- and the merge leaves the packet that has its key as it is: then it is a known packet.
  pub apply_envelope-new :
      (unchanged : ℕ) (db : IngestDb)
      → let outcome = (apply_envelope meta env now unchanged db).2 in
        (outcome.new_packet ≡ true) ↔ (
          (outcome.new_reception ≡ true)
          × ((find_row (has_same_key (row_of db)) db.tables.packets ≡ none)
              ⊎ ((unchanged ≡ 1)
                  × ((r : PacketRow) × (find_row (has_same_key (row_of db)) db.tables.packets
                        ≡ some r)
                      × (merge_packet (row_of db) r ≡ r)))))
  unfolding apply_envelope
  apply_envelope-new unchanged db =
      let v : PacketRow = row_of db in
      let up = upsert_packet unchanged v db.tables in
      let a : Arrival = arrival now meta.window_seconds env.packet db.tables.packets in
      let both =
        (receive-IsReported up.1 a (up.2 == 1)
          (backfill_channel meta env now up.1 (up.2 == 1) (record db { tables = up.0 }))).same in
      let counted = upsert_packet-new unchanged v db.tables in
      (
        λ h.
            let (fresh, one) = split _ _ (sym both ∙ h) in
            (
              fresh,
              elim (counted.0 ((==_iff up.2 1).0 one)) [
                | inl missing ↦ inl missing
                | inr (k, (r, found, same)) ↦
                    inr (k, (r, found, (is_changed-merge_packet v r).0 same))
              ],
            ),
        λ (fresh, why).
            both
            ∙ joined _ _ fresh (
                (==_iff up.2 1).1 (
                  counted.1 (elim why [
                    | inl missing ↦ inl missing
                    | inr (k, (r, found, same)) ↦
                        inr (k, (r, found, (is_changed-merge_packet v r).1 same))
                  ]))),
      )
    where
      split : (x y : Bool) → (x && y) ≡ true → (x ≡ true) × (y ≡ true)
      split x y h = (ground arith, ground arith)

      joined : (x y : Bool) → x ≡ true → y ≡ true → (x && y) ≡ true
      joined x y e f = ground arith
