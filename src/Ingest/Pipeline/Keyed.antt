-- ===== src/Ingest/Pipeline/Keyed.antt =====
-- That the statements of src/ingest/pipeline.ts keep the ids of the packets distinct.
use hop_watch.Prelude.{
  ℕ, ◌+◌, ◌<◌, ◌≡◌, refl, inl, inr, Bool, true, [], ◌∷◌, arith, Option-cases, All-append,
}
use hop_watch.Ingest.Pipeline.Statements.{update_where, find_row}
use hop_watch.Ingest.Pipeline.Statements.Laws.{map-update_where, Distinct-append}
use hop_watch.Ingest.Pipeline.Rows.{PacketRow, ReceptionRow, PacketTables}
use hop_watch.Ingest.Pipeline.Receptions.{upgrade_receptions, insert_reception}
use hop_watch.Ingest.Pipeline.Packets.{
  has_same_key, merge_packet, upsert_packet, claim_side, is_unwritten, bump_reception_count,
  is_packet,
}
use hop_watch.Ingest.Pipeline.Tally.{ids, All-lt_suc, map-ids, IsKeyed}

-- An update that leaves the ids alone.
IsKeyed-update :
    (hit : PacketRow → Bool) (patch : PacketRow → PacketRow) (t : PacketTables)
    → ((r : PacketRow) → (patch r).id ≡ r.id)
    → IsKeyed t
    → IsKeyed (record t { packets = update_where hit patch t.packets })
IsKeyed-update hit patch t same h =
    let e = map-update_where (λ r. r.id) hit patch same t.packets in
    record { distinct = rw e h.distinct; below = rw e h.below }

pub upsert_packet-IsKeyed :
    (unchanged : ℕ) (v : PacketRow) (t : PacketTables)
    → v.id ≡ t.next_id
    → IsKeyed t
    → IsKeyed (upsert_packet unchanged v t).0
unfolding upsert_packet
upsert_packet-IsKeyed unchanged v t at_next h =
    elim (Option-cases (find_row (has_same_key v) t.packets)) [
      | inl e ↦
          rw (e, upsert_packet)
            (record {
              distinct =
                  rw (map-ids t.packets v, at_next)
                    (Distinct-append (ids t.packets) t.next_id h.below h.distinct);
              below =
                  rw (map-ids t.packets v, at_next)
                    (All-append (λ n. n < t.next_id + 1) (ids t.packets) (t.next_id ∷ [])
                      (All-lt_suc t.next_id (ids t.packets) h.below) (omega arith, tt));
            })
      | inr (r, e) ↦
          rw (e, upsert_packet)
            (IsKeyed-update (has_same_key v) (merge_packet v) t (λ q. unfold merge_packet in refl)
              h)
    ]

pub claim_side-IsKeyed :
    (id seen : ℕ) (t : PacketTables) → IsKeyed t → IsKeyed (claim_side id seen t).0
unfolding claim_side
claim_side-IsKeyed id seen t h =
    IsKeyed-update (is_unwritten id seen) (λ r. record r { decoded_side_written = true }) t
      (λ r. refl) h

pub bump-IsKeyed :
    (id seen : ℕ) (t : PacketTables) → IsKeyed t → IsKeyed (bump_reception_count id seen t)
unfolding bump_reception_count
bump-IsKeyed id seen t h =
    IsKeyed-update (is_packet id seen) (λ r. record r { reception_count = r.reception_count + 1 }) t
      (λ r. refl) h

pub upgrade_receptions-IsKeyed :
    (v : ReceptionRow) (t : PacketTables) → IsKeyed t → IsKeyed (upgrade_receptions v t).0
unfolding upgrade_receptions
upgrade_receptions-IsKeyed v t h = record { distinct = h.distinct; below = h.below }

pub insert_reception-IsKeyed :
    (v : ReceptionRow) (t : PacketTables) → IsKeyed t → IsKeyed (insert_reception v t).0
unfolding insert_reception
insert_reception-IsKeyed v t h = record { distinct = h.distinct; below = h.below }
