-- ===== src/Ingest/Pipeline/Tally.antt =====
-- The count of receptions of src/ingest/pipeline.ts, and the packet that a delivery names.
use hop_watch.Prelude.{
  ℕ, ◌+◌, ◌<◌, ◌≡◌, refl, sym, ap, ◌∙◌, ◌≢◌, inl, inr, true, false, some, List, [], ◌∷◌, ◌++◌, map,
  arith, ◌==◌, Bool-cases, All,
}
use hop_watch.Ingest.Pipeline.Statements.{count_where, find_row}
use hop_watch.Ingest.Pipeline.Statements.Laws.{
  All-map, All-unmap, find_row-All, count_where_none, Distinct,
}
use hop_watch.Ingest.Pipeline.Rows.{PacketRow, ReceptionRow, PacketTables}
use hop_watch.Ingest.Pipeline.Packets.{has_same_key}

abbrev pub ids : List PacketRow → List ℕ
ids = map (λ r. r.id)

abbrev pub receptions_of : ℕ → List ReceptionRow → ℕ
receptions_of id rows = count_where (λ x. x.packet_id == id) rows

-- The ids are distinct and below the counter, and each packet counts the receptions that name it.
pub record IsCounted (t : PacketTables) : Type 0 where
  pub distinct : Distinct (ids t.packets)
  pub below : All (λ n. n < t.next_id) (ids t.packets)
  pub received_below : All (λ x. x.packet_id < t.next_id) t.receptions
  pub counted : All (λ r. r.reception_count ≡ receptions_of r.id t.receptions) t.packets

-- The part of it that the identity of packets rests on.
pub record IsKeyed (t : PacketTables) : Type 0 where
  pub distinct : Distinct (ids t.packets)
  pub below : All (λ n. n < t.next_id) (ids t.packets)

pub IsCounted-IsKeyed : (t : PacketTables) → IsCounted t → IsKeyed t
IsCounted-IsKeyed t h = record { distinct = h.distinct; below = h.below }

-- The packet of a delivery: it is there, under this first sight.
pub record Names (id seen : ℕ) (t : PacketTables) : Type 0 where
  pub known : id < t.next_id
  pub seen_then : All (λ r. r.id ≡ id → r.first_seen_at ≡ seen) t.packets

pub Names-found :
    (v : PacketRow) (rows : List PacketRow) {r : PacketRow}
    → Distinct (ids rows)
    → find_row (has_same_key v) rows ≡ some r
    → All (λ q. q.id ≡ r.id → q.first_seen_at ≡ v.first_seen_at) rows
unfolding has_same_key
Names-found v [] d e = tt
Names-found v (x ∷ rs) {r} (ne, d) e = elim (Bool-cases (has_same_key v x)) [
  | inl yes_hit ↦ (
    λ same. ground (arith, yes_hit),
    All-map (λ q. q.id ≢ x.id) _ (λ q apart same. absurd (apart (same ∙ head yes_hit))) rs
        (All-unmap (λ n. n ≢ x.id) (λ q. q.id) rs ne),
  )
  | inr no_hit ↦ (
    λ same. absurd (
        find_row-All (λ q. q.id ≢ x.id) (has_same_key v) rs (tail no_hit)
          (All-unmap (λ n. n ≢ x.id) (λ q. q.id) rs ne) (sym same)),
    Names-found v rs d (tail no_hit),
  )
]
  where
    head : has_same_key v x ≡ true → r.id ≡ x.id
    head h = ground (arith, e, h)

    tail : has_same_key v x ≡ false → find_row (has_same_key v) rs ≡ some r
    tail h = ground (arith, e, h)

pub Names-none :
    (id seen : ℕ) (rows : List PacketRow)
    → All (λ n. n < id) (ids rows)
    → All (λ q. q.id ≡ id → q.first_seen_at ≡ seen) rows
Names-none id seen rows h =
    All-map (λ q. q.id < id) _ (λ q less same. absurd (omega arith)) rows
      (All-unmap (λ n. n < id) (λ q. q.id) rows h)

pub All-lt_suc : (n : ℕ) (xs : List ℕ) → All (λ x. x < n) xs → All (λ x. x < n + 1) xs
All-lt_suc n [] h = tt
All-lt_suc n (x ∷ xs) (p, h) = (omega arith, All-lt_suc n xs h)

pub map-ids : (xs : List PacketRow) (v : PacketRow) → ids (xs ++ v ∷ []) ≡ ids xs ++ v.id ∷ []
map-ids [] v = refl
map-ids (x ∷ xs) v = ap (x.id ∷◌) (map-ids xs v)

pub receptions_of_next :
    (n : ℕ) (rows : List ReceptionRow) → All (λ x. x.packet_id < n) rows → receptions_of n rows ≡ 0
receptions_of_next n rows h =
    count_where_none (λ x. x.packet_id == n) rows
      (All-map (λ x. x.packet_id < n) _ (λ x less. ground arith) rows h)
