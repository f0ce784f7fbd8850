-- ===== src/Ingest/Pipeline/Counts.antt =====
-- That src/ingest/pipeline.ts counts every reception once.
use hop_watch.Prelude.{
  ℕ, ◌+◌, ◌<◌, ◌≡◌, refl, sym, ap, ◌∙◌, inl, inr, Bool, true, false, List, [], ◌∷◌, arith, ◌==◌,
  Option-cases, if-cases, any, All-append,
}
use hop_watch.Ingest.Pipeline.Receptions.{
  upgrade_receptions, insert_reception, is_upgradable, take_over, same_reception,
}
use hop_watch.Ingest.Pipeline.Statements.{update_where, find_row}
use hop_watch.Ingest.Pipeline.Statements.Laws.{
  map-update_where, All-update_where, All-map, All-unmap, find_row-All, Distinct-append,
  count_where-update_where, count_where-append, All-both,
}
use hop_watch.Ingest.Pipeline.Rows.{PacketRow, ReceptionRow, PacketTables}
use hop_watch.Ingest.Pipeline.Packets.{
  has_same_key, merge_packet, upsert_packet, claim_side, is_unwritten, bump_reception_count,
  is_packet,
}
use hop_watch.Ingest.Pipeline.Tally.{
  ids, receptions_of, Names-found, Names-none, All-lt_suc, map-ids, receptions_of_next, IsCounted,
  Names, IsKeyed,
}

-- The upsert of a packet without receptions.
pub upsert_packet-IsCounted :
    (unchanged : ℕ) (v : PacketRow) (t : PacketTables)
    → v.id ≡ t.next_id
    → v.reception_count ≡ 0
    → IsCounted t
    → IsCounted (upsert_packet unchanged v t).0
unfolding upsert_packet
upsert_packet-IsCounted unchanged v t at_next none_yet h =
    elim (Option-cases (find_row (has_same_key v) t.packets)) [
      | inl e ↦
          rw (e, upsert_packet)
            (record {
              distinct =
                  rw (map-ids t.packets v, at_next)
                    (Distinct-append (ids t.packets) t.next_id h.below h.distinct);
              below =
                  rw (map-ids t.packets v, at_next)
                    (All-append (λ n. n < t.next_id + 1) (ids t.packets) (t.next_id ∷ [])
                      (All-lt_suc t.next_id (ids t.packets) h.below) (omega arith, tt));
              received_below =
                  All-map (λ x. x.packet_id < t.next_id) _ (λ x less. omega arith) t.receptions
                    h.received_below;
              counted =
                  All-append (λ r. r.reception_count ≡ receptions_of r.id t.receptions) t.packets
                    (v ∷ []) h.counted
                    (
                      none_yet
                          ∙ sym (
                              ap (λ n. receptions_of n t.receptions) at_next
                              ∙ receptions_of_next t.next_id t.receptions h.received_below),
                      tt,
                    );
            })
      | inr (r, e) ↦
          rw (e, upsert_packet)
            (record {
              distinct = rw same_ids h.distinct;
              below = rw same_ids h.below;
              received_below = h.received_below;
              counted =
                  All-update_where _ _ (has_same_key v) (merge_packet v)
                    (λ q hit c. unfold merge_packet in c) (λ q off c. c) t.packets h.counted;
            })
    ]
  where
    same_ids : ids (update_where (has_same_key v) (merge_packet v) t.packets) ≡ ids t.packets
    same_ids =
        map-update_where (λ r. r.id) (has_same_key v) (merge_packet v)
          (λ r. unfold merge_packet in refl) t.packets

pub upsert_packet-Names :
    (unchanged : ℕ) (v : PacketRow) (t : PacketTables)
    → v.id ≡ t.next_id
    → IsKeyed t
    → Names (upsert_packet unchanged v t).1 v.first_seen_at (upsert_packet unchanged v t).0
unfolding upsert_packet
upsert_packet-Names unchanged v t at_next h =
    elim (Option-cases (find_row (has_same_key v) t.packets)) [
      | inl e ↦
          rw (e, upsert_packet)
            (record {
              known = omega (arith, at_next);
              seen_then =
                  All-append (λ q. q.id ≡ v.id → q.first_seen_at ≡ v.first_seen_at) t.packets
                    (v ∷ []) (Names-none v.id v.first_seen_at t.packets (rw at_next h.below))
                    (λ _. refl, tt);
            })
      | inr (r, e) ↦
          rw (e, upsert_packet)
            (record {
              known =
                  find_row-All (λ q. q.id < t.next_id) (has_same_key v) t.packets e
                    (All-unmap (λ n. n < t.next_id) (λ q. q.id) t.packets h.below);
              seen_then =
                  All-update_where (λ q. q.id ≡ r.id → q.first_seen_at ≡ v.first_seen_at) _
                    (has_same_key v) (merge_packet v) (λ q hit c. unfold merge_packet in c)
                    (λ q off c. c) t.packets (Names-found v t.packets h.distinct e);
            })
    ]

pub upgrade_receptions-IsCounted :
    (v : ReceptionRow) (t : PacketTables) → IsCounted t → IsCounted (upgrade_receptions v t).0
unfolding upgrade_receptions
upgrade_receptions-IsCounted v t h = record {
  distinct = h.distinct;
  below = h.below;
  received_below =
      All-update_where (λ x. x.packet_id < t.next_id) _ (is_upgradable v) (take_over v)
        (λ x hit less. unfold take_over in less) (λ x off less. less) t.receptions h.received_below;
  counted =
      All-map (λ r. r.reception_count ≡ receptions_of r.id t.receptions) _
        (λ r c.
          c
          ∙ sym (
              count_where-update_where (λ x. x.packet_id == r.id) (is_upgradable v) (take_over v)
                (λ x. unfold take_over in refl) t.receptions))
        t.packets h.counted;
}

pub claim_side-IsCounted :
    (id seen : ℕ) (t : PacketTables) → IsCounted t → IsCounted (claim_side id seen t).0
unfolding claim_side
claim_side-IsCounted id seen t h = record {
  distinct = rw same_ids h.distinct;
  below = rw same_ids h.below;
  received_below = h.received_below;
  counted =
      All-update_where (λ r. r.reception_count ≡ receptions_of r.id t.receptions) _
        (is_unwritten id seen) (λ r. record r { decoded_side_written = true }) (λ q hit c. c)
        (λ q off c. c) t.packets h.counted;
}
  where
    same_ids : ids (claim_side id seen t).0.packets ≡ ids t.packets
    same_ids =
        map-update_where (λ r. r.id) (is_unwritten id seen)
          (λ r. record r { decoded_side_written = true }) (λ r. refl) t.packets

-- A reception that is inserted, and counted by the packet that it names.
pub insert_reception-IsCounted :
    (v : ReceptionRow) (seen : ℕ) (t : PacketTables)
    → IsCounted t
    → Names v.packet_id seen t
    → (insert_reception v t).1 ≡ true
    → IsCounted (bump_reception_count v.packet_id seen (insert_reception v t).0)
unfolding insert_reception bump_reception_count
insert_reception-IsCounted v seen t h name fresh =
    rw (absent, insert_reception)
      (record {
        distinct = rw same_ids h.distinct;
        below = rw same_ids h.below;
        received_below =
            All-append (λ x. x.packet_id < t.next_id) t.receptions (v ∷ []) h.received_below
              (name.known, tt);
        counted =
            All-update_where
              (λ r.
                (r.reception_count ≡ receptions_of r.id t.receptions)
                × (r.id ≡ v.packet_id → r.first_seen_at ≡ seen))
              _ (is_packet v.packet_id seen) bump
              (λ r hit c. ground (
                arith,
                c.0,
                hit,
                count_where-append (λ x. x.packet_id == r.id) t.receptions (v ∷ []),
              ))
              (λ r off c.
                c.0
                ∙ sym (
                    count_where-append (λ x. x.packet_id == r.id) t.receptions (v ∷ [])
                    ∙ ap (λ n. receptions_of r.id t.receptions + n) (apart r off c.1)
                    ∙ (omega arith)))
              t.packets
              (All-both (λ r. r.reception_count ≡ receptions_of r.id t.receptions)
                (λ r. r.id ≡ v.packet_id → r.first_seen_at ≡ seen) t.packets h.counted
                name.seen_then);
      })
  where
    apart :
        (r : PacketRow)
        → is_packet v.packet_id seen r ≡ false
        → (r.id ≡ v.packet_id → r.first_seen_at ≡ seen)
        → receptions_of r.id (v ∷ []) ≡ 0
    apart r off then_seen =
        if-cases (λ n. n ≡ 0) (v.packet_id == r.id)
          (λ e. absurd (unfold is_packet in ground (arith, off, e, then_seen (ground arith))))
          (λ e. refl)

    bump : PacketRow → PacketRow
    bump r = record r { reception_count = r.reception_count + 1 }

    same_ids : ids (update_where (is_packet v.packet_id seen) bump t.packets) ≡ ids t.packets
    same_ids = map-update_where (λ r. r.id) (is_packet v.packet_id seen) bump (λ r. refl) t.packets

    absent : any (same_reception v) t.receptions ≡ false
    absent =
        if-cases
          (λ (p : List ReceptionRow × Bool).
            p.1 ≡ true → any (same_reception v) t.receptions ≡ false)
          (any (same_reception v) t.receptions) (λ e f. absurd (cc)) (λ e f. e) fresh

-- A reception that is there already.
pub insert_reception_known :
    (v : ReceptionRow) (t : PacketTables)
    → (insert_reception v t).1 ≡ false
    → (insert_reception v t).0 ≡ t
unfolding insert_reception
insert_reception_known v t known =
    if-cases (λ (p : List ReceptionRow × Bool). p.1 ≡ false → record t { receptions = p.0 } ≡ t)
      (any (same_reception v) t.receptions) (λ _ _. refl) (λ _ f. absurd (cc)) known
