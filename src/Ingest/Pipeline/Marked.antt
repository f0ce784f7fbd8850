-- ===== src/Ingest/Pipeline/Marked.antt =====
-- Which packets of src/ingest/pipeline.ts are marked as written, and that a claim is lost only for them.
use hop_watch.Prelude.{
  ℕ, ◌≡◌, refl, sym, ap, ◌∙◌, ◌≢◌, inl, inr, Bool, true, false, ◌&&◌, ◌||◌, some, List, [], ◌∷◌,
  ◌++◌, arith, ◌==◌, ==_iff, Bool-cases, Option-cases, any, All,
}
use mathlib.Core.Bool.{false≢true}
use hop_watch.Ingest.Pipeline.Statements.{update_where, find_row, count_where}
use hop_watch.Ingest.Pipeline.Statements.Laws.{Distinct, All-unmap, All-map, count_where_none}
use hop_watch.Ingest.Pipeline.Rows.{PacketRow, PacketTables}
use hop_watch.Ingest.Pipeline.Packets.{
  has_same_key, merge_packet, upsert_packet, claim_side, is_unwritten, is_packet,
}
use hop_watch.Ingest.Pipeline.Keyed.{upsert_packet-IsKeyed}
use hop_watch.Ingest.Pipeline.Counts.{upsert_packet-Names}
use hop_watch.Ingest.Pipeline.Decoded.{write_decoded}
use hop_watch.Ingest.Pipeline.Nodes.{NodeTables}
use hop_watch.Ingest.Pipeline.Side.{SideTables, Source}
use hop_watch.Ingest.Pipeline.Envelope.{ParsedPayload}
use hop_watch.Ingest.Pipeline.Tally.{ids, IsKeyed, Names}

-- A packet of that id is there; one is there whose side tables are written.
abbrev pub is_there : ℕ → List PacketRow → Bool
is_there id = any (λ r. r.id == id)

abbrev pub is_written : ℕ → List PacketRow → Bool
is_written id = any (λ r. r.id == id && r.decoded_side_written)

pub any-update_where :
    (test hit : PacketRow → Bool) (patch : PacketRow → PacketRow)
    → ((r : PacketRow) → test (patch r) ≡ test r)
    → (rows : List PacketRow) → any test (update_where hit patch rows) ≡ any test rows
any-update_where test hit patch same [] = refl
any-update_where test hit patch same (r ∷ rs) =
    ground (arith, same r, any-update_where test hit patch same rs)

any-snoc :
    (test : PacketRow → Bool) (rows : List PacketRow) (r : PacketRow)
    → any test (rows ++ r ∷ []) ≡ (any test rows || test r)
any-snoc test [] r = ground arith
any-snoc test (x ∷ rows) r = ground (arith, any-snoc test rows r)

-- The one packet of that id, if it is not written, is hit by the claim.
claim_hits :
    (id seen : ℕ) (rows : List PacketRow)
    → Distinct (ids rows)
    → All (λ r. r.id ≡ id → r.first_seen_at ≡ seen) rows
    → is_there id rows ≡ true
    → is_written id rows ≡ false
    → count_where (is_unwritten id seen) rows ≡ 1
unfolding is_unwritten is_packet
claim_hits id seen [] d s there off = absurd (cc)
claim_hits id seen (r ∷ rs) (ne, d) (s, ss) there off = elim (Bool-cases (r.id == id)) [
  | inl same ↦
      let none_else = count_where_none (is_unwritten id seen) rs (
        All-map (λ q. q.id ≢ r.id) _
          (λ q apart. unfold is_unwritten is_packet in ground (arith, same, apart)) rs
          (All-unmap (λ n. n ≢ r.id) (λ q. q.id) rs ne)) in
      let at_seen = s ((==_iff r.id id).0 same) in ground (arith, none_else, at_seen, same, off)
  | inr apart ↦
      let rest = claim_hits id seen rs d ss (ground (arith, there, apart)) (ground (arith, off)) in
      ground (arith, apart, rest)
]

pub claim_lost :
    (id seen : ℕ) (t : PacketTables)
    → IsKeyed t
    → Names id seen t
    → is_there id t.packets ≡ true
    → (claim_side id seen t).1 ≡ false
    → is_written id t.packets ≡ true
unfolding claim_side
claim_lost id seen t keyed name there lost = elim (Bool-cases (is_written id t.packets)) [
  | inl done ↦ done
  | inr off ↦ absurd (
      let one = claim_hits id seen t.packets keyed.distinct name.seen_then there off in
      false≢true (sym lost ∙ (==_iff (count_where (is_unwritten id seen) t.packets) 1).1 one))
]

-- What became of a payload: the packet's side tables had been written before, or they are what
-- `writeDecoded` makes of those that were found.
pub data IsStored (s : Source) (parsed : ParsedPayload) (before : List PacketRow)
    (found side : SideTables) : Type 0 where
  earlier : is_written s.packet_id before ≡ true → IsStored s parsed before found side
  here :
      (n : NodeTables)
      → side ≡ (write_decoded s parsed (n, found)).1
      → IsStored s parsed before found side

-- The packet is there, under this first sight, and nothing has been written for it since.
pub record IsReady (id seen : ℕ) (before : List PacketRow) (found : SideTables) (t : PacketTables)
    (s : SideTables) : Type 0 where
  pub keyed : IsKeyed t
  pub names : Names id seen t
  pub there : is_there id t.packets ≡ true
  pub earlier : is_written id t.packets ≡ true → is_written id before ≡ true
  pub untouched : s ≡ found

found_there :
    (hit : PacketRow → Bool) (rows : List PacketRow) {r : PacketRow}
    → find_row hit rows ≡ some r
    → is_there r.id rows ≡ true
found_there hit [] e = absurd (cc)
found_there hit (x ∷ rows) {r} e = elim (Bool-cases (hit x)) [
  | inl on ↦ let same : x ≡ r = ground (arith, e, on) in ground (arith, ap (λ q. q.id) same)
  | inr off ↦
      let rest = found_there hit rows {r = r} (ground (arith, e, off)) in ground (arith, rest)
]

pub IsReady-upsert :
    (unchanged : ℕ) (v : PacketRow) (t : PacketTables) (found : SideTables)
    → v.id ≡ t.next_id
    → v.decoded_side_written ≡ false
    → IsKeyed t
    → IsReady
        (upsert_packet unchanged v t).1
        v.first_seen_at
        t.packets
        found
        (upsert_packet unchanged v t).0
        found
unfolding upsert_packet
IsReady-upsert unchanged v t found at_next fresh h = record {
  keyed = upsert_packet-IsKeyed unchanged v t at_next h;
  names = upsert_packet-Names unchanged v t at_next h;
  there = elim (Option-cases (find_row (has_same_key v) t.packets)) [
    | inl e ↦
        rw (e, upsert_packet)
          (any-snoc (λ r. r.id == v.id) t.packets v
            ∙ or_self (any (λ r. r.id == v.id) t.packets) v.id)
    | inr (r, e) ↦
        rw (e, upsert_packet)
          (any-update_where (λ q. q.id == r.id) (has_same_key v) (merge_packet v)
              (λ q. unfold merge_packet in refl) t.packets
            ∙ found_there (has_same_key v) t.packets e)
  ];
  earlier = elim (Option-cases (find_row (has_same_key v) t.packets)) [
    | inl e ↦
        rw (e, upsert_packet)
          (λ w.
            drop_last (is_written v.id t.packets) (v.id == v.id) v.decoded_side_written fresh
              (sym (any-snoc (λ r. r.id == v.id && r.decoded_side_written) t.packets v) ∙ w))
    | inr (r, e) ↦
        rw (e, upsert_packet)
          (λ w.
            sym (
              any-update_where (λ q. q.id == r.id && q.decoded_side_written) (has_same_key v)
                (merge_packet v) (λ q. unfold merge_packet in refl) t.packets)
            ∙ w)
  ];
  untouched = refl;
}
  where
    or_self : (b : Bool) (n : ℕ) → (b || (n == n)) ≡ true
    or_self b n = ground arith

    drop_last : (x y z : Bool) → z ≡ false → (x || (y && z)) ≡ true → x ≡ true
    drop_last x y z off w = ground arith
