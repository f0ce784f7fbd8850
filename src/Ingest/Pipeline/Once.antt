-- ===== src/Ingest/Pipeline/Once.antt =====
-- That src/ingest/pipeline.ts writes what a packet says once, however many copies of it arrive.
use hop_watch.Prelude.{
  ℕ, ◌+◌, ◌≤◌, ◌<◌, ◌≡◌, sym, ◌∙◌, ◌≢◌, inl, inr, Bool, true, false, Option, none, some, List, [],
  ◌∷◌, ◌++◌, arith, ◌==◌, Bool-cases, Option-cases, if-cases, All, All-append,
}
use mathlib.Core.Bool.{false≢true}
use hop_watch.Ingest.Pipeline.Tally.{IsKeyed, Names, ids}
use hop_watch.Ingest.Pipeline.Steps.{backfill_channel}
use hop_watch.Ingest.Pipeline.Db.{IngestDb}
use hop_watch.Ingest.Pipeline.Decoded.{write_decoded}
use hop_watch.Ingest.Pipeline.Nodes.{NodeTables}
use hop_watch.Ingest.Pipeline.Statements.{count_where, one_if, find_row}
use hop_watch.Ingest.Pipeline.Side.{SideTables, Source}
use hop_watch.Ingest.Pipeline.Statements.Laws.{
  count_where_none, All-map, All-update_where, All-both, count_where-append, Distinct, All-unmap,
}
use hop_watch.Ingest.Pipeline.Packets.{
  claim_side, upsert_packet, is_unwritten, has_same_key, merge_packet, is_packet,
}
use hop_watch.Ingest.Pipeline.Envelope.{NormalizedEnvelope, IngestMeta, ParsedPayload}
use hop_watch.Ingest.Pipeline.Rows.{PacketTables, PacketRow}

-- A side table that `writeDecoded` only appends to, a row to a packet at most.
pub record EventTable (R : Type 0) : Type 0 where
  pub events : SideTables → List R
  pub source_packet : R → ℕ
  pub write : Source → ParsedPayload → Option R
  pub write_source :
      (s : Source) (p : ParsedPayload) {r : R} → write s p ≡ some r → source_packet r ≡ s.packet_id
  pub write_none :
      (s : Source) (p : ParsedPayload) (n : NodeTables) (t : SideTables)
      → write s p ≡ none
      → events (write_decoded s p (n, t)).1 ≡ events t
  pub write_some :
      (s : Source) (p : ParsedPayload) (n : NodeTables) (t : SideTables) {r : R}
      → write s p ≡ some r
      → events (write_decoded s p (n, t)).1 ≡ events t ++ r ∷ []
  pub backfill :
      (meta : IngestMeta) (env : NormalizedEnvelope) (now id : ℕ) (new : Bool) (db : IngestDb)
      → events (backfill_channel meta env now id new db).side ≡ events db.side

is_unwritten-id :
    (id seen : ℕ) (q : PacketRow)
    → is_unwritten id seen q ≡ true
    → (q.id ≡ id) × (q.decoded_side_written ≡ false)
unfolding is_unwritten is_packet
is_unwritten-id id seen q h = ground arith

is_unwritten_other : (id seen : ℕ) (q : PacketRow) → q.id ≢ id → is_unwritten id seen q ≡ false
unfolding is_unwritten is_packet
is_unwritten_other id seen q h = ground arith

-- Where the claim has found a row, all rows of its id are the one row that it has found.
claim_found :
    (id seen : ℕ) (rows : List PacketRow)
    → Distinct (ids rows)
    → 0 < count_where (is_unwritten id seen) rows
    → All (λ q. q.id ≡ id → is_unwritten id seen q ≡ true) rows
claim_found id seen [] d h = tt
claim_found id seen (x ∷ rs) (ne, d) h = elim (Bool-cases (is_unwritten id seen x)) [
  | inl hit ↦ (
    λ _. hit,
    All-map (λ q. q.id ≢ x.id) _
        (λ q apart same. absurd (apart (same ∙ sym (is_unwritten-id id seen x hit).0))) rs others,
  )
  | inr off ↦ (
    λ same. absurd (
        omega (
          arith,
          rest off,
          count_where_none (is_unwritten id seen) rs (
              All-map (λ q. q.id ≢ x.id) _
                (λ q apart. is_unwritten_other id seen q (λ e. apart (e ∙ sym same))) rs others),
        )),
    claim_found id seen rs d (rest off),
  )
]
  where
    others : All (λ q. q.id ≢ x.id) rs
    others = All-unmap (λ n. n ≢ x.id) (λ q. q.id) rs ne

    rest : is_unwritten id seen x ≡ false → 0 < count_where (is_unwritten id seen) rs
    rest off = ground (arith, h, off)

module _ {R : Type 0} (table : EventTable R) where
  open table use {events, source_packet, write, write_source, write_none, write_some, backfill}

  abbrev pub events_of : ℕ → List R → ℕ
  events_of id rows = count_where (λ e. source_packet e == id) rows

  -- A packet has one row at most, and none before its claim.
  pub record WritesOnce (t : PacketTables) (s : SideTables) : Type 0 where
    pub once : All (λ r. events_of r.id (events s) ≤ one_if r.decoded_side_written) t.packets
    pub sources_below : All (λ e. source_packet e < t.next_id) (events s)

  events_of_next :
      (n : ℕ) (rows : List R) → All (λ e. source_packet e < n) rows → events_of n rows ≡ 0
  events_of_next n rows h =
      count_where_none (λ e. source_packet e == n) rows
        (All-map (λ e. source_packet e < n) _ (λ e less. ground arith) rows h)

  pub upsert_packet-WritesOnce :
      (unchanged : ℕ) (v : PacketRow) (t : PacketTables) (s : SideTables)
      → v.id ≡ t.next_id
      → WritesOnce t s
      → WritesOnce (upsert_packet unchanged v t).0 s
  unfolding upsert_packet
  upsert_packet-WritesOnce unchanged v t s at_next h =
      elim (Option-cases (find_row (has_same_key v) t.packets)) [
        | inl e ↦
            rw (e, upsert_packet)
              (record {
                once =
                    All-append (λ r. events_of r.id (events s) ≤ one_if r.decoded_side_written)
                      t.packets (v ∷ []) h.once
                      (
                        rw (at_next, events_of_next t.next_id (events s) h.sources_below)
                            (omega arith),
                        tt,
                      );
                sources_below =
                    All-map (λ e. source_packet e < t.next_id) _ (λ e less. omega arith) (events s)
                      h.sources_below;
              })
        | inr (r, e) ↦
            rw (e, upsert_packet)
              (record {
                once =
                    All-update_where _ _ (has_same_key v) (merge_packet v)
                      (λ q hit c. unfold merge_packet in c) (λ q off c. c) t.packets h.once;
                sources_below = h.sources_below;
              })
      ]

  pub claim_side_lost :
      (id seen : ℕ) (t : PacketTables) (s : SideTables)
      → WritesOnce t s
      → WritesOnce (claim_side id seen t).0 s
  unfolding claim_side
  claim_side_lost id seen t s h = record {
    once =
        All-update_where (λ r. events_of r.id (events s) ≤ one_if r.decoded_side_written) _
          (is_unwritten id seen) (λ r. record r { decoded_side_written = true })
          (λ q hit c. ground arith) (λ q off c. c) t.packets h.once;
    sources_below = h.sources_below;
  }

  -- The winner's row is the packet of the claim, and was not written.
  pub claim_side_won :
      (id seen : ℕ) (t : PacketTables) (s : SideTables) (e : R)
      → IsKeyed t
      → Names id seen t
      → (claim_side id seen t).1 ≡ true
      → source_packet e ≡ id
      → WritesOnce t s
      → (s' : SideTables) → events s' ≡ events s ++ e ∷ []
      → WritesOnce (claim_side id seen t).0 s'
  unfolding claim_side
  claim_side_won id seen t s e keyed name won from h s' grown = record {
    once = rw grown (
        All-update_where
          (λ r.
            (events_of r.id (events s) ≤ one_if r.decoded_side_written)
            × (r.id ≡ id → is_unwritten id seen r ≡ true))
          _ (is_unwritten id seen) (λ r. record r { decoded_side_written = true })
          (λ q hit c. one_more q (c.0) (is_unwritten-id id seen q hit).1)
          (λ q off c. same_as q off c.1 c.0) t.packets
          (All-both _ _ t.packets h.once
            (claim_found id seen t.packets keyed.distinct (ground (arith, won)))));
    sources_below = rw grown (
        All-append (λ x. source_packet x < t.next_id) (events s) (e ∷ []) h.sources_below
          (rw from name.known, tt));
  }
    where
      one_more :
          (q : PacketRow)
          → events_of q.id (events s) ≤ one_if q.decoded_side_written
          → q.decoded_side_written ≡ false
          → events_of q.id (events s ++ e ∷ []) ≤ 1
      one_more q none_yet unwritten = ground (
        arith,
        none_yet,
        unwritten,
        count_where-append (λ x. source_packet x == q.id) (events s) (e ∷ []),
      )

      same_as :
          (q : PacketRow)
          → is_unwritten id seen q ≡ false
          → (q.id ≡ id → is_unwritten id seen q ≡ true)
          → events_of q.id (events s) ≤ one_if q.decoded_side_written
          → events_of q.id (events s ++ e ∷ []) ≤ one_if q.decoded_side_written
      same_as q off found kept =
          rw (count_where-append (λ x. source_packet x == q.id) (events s) (e ∷ [])) (
            if-cases (λ n. events_of q.id (events s) + n ≤ one_if q.decoded_side_written)
              (source_packet e == q.id)
              (λ same. absurd (false≢true (sym off ∙ found (ground (arith, same, from)))))
              (λ _. omega (arith, kept)))
