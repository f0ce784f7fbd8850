-- ===== src/Ingest/Pipeline/Revisited.antt =====
-- What a second delivery of src/ingest/pipeline.ts finds in the tables.
use hop_watch.Prelude.{
  ℕ, ◌+◌, ◌≡◌, refl, ap, ◌∙◌, inl, inr, Bool, true, false, ◌||◌, Option, none, some, List, [], ◌∷◌,
  ◌++◌, arith, ltb, if◌then◌else◌, Option-cases, if-cases, any,
}
use hop_watch.Ingest.Pipeline.Kept.{write_side-tables}
use hop_watch.Ingest.Pipeline.Steps.{write_side}
use hop_watch.Ingest.Pipeline.Db.{IngestDb}
use hop_watch.Ingest.Pipeline.Arrival.{Arrival}
use hop_watch.Ingest.Pipeline.Statements.Laws.{map-update_where, find_row-append}
use hop_watch.Ingest.Pipeline.Statements.{find_row}
use hop_watch.Ingest.Pipeline.Receptions.{same_reception, insert_reception, is_rf}
use hop_watch.Ingest.Pipeline.Packets.{
  upsert_packet, has_same_key, bump_reception_count, claim_side, is_packet, is_unwritten,
  merge_packet,
}
use hop_watch.Ingest.Pipeline.Keys.{PacketKey, keys, key_found, packet_key, find_row-same}
use hop_watch.Ingest.Pipeline.Envelope.{NormalizedEnvelope, IngestMeta, mqtt, rf, RxTransport}
use hop_watch.Ingest.Pipeline.Rows.{PacketTables, ReceptionRow, PacketRow}

-- Rows with one key are found alike.
pub same_packet_cong :
    (v v' : PacketRow) (rows : List PacketRow)
    → v.from_node_id ≡ v'.from_node_id
    → v.mesh_packet_id ≡ v'.mesh_packet_id
    → v.dedup_bucket_no ≡ v'.dedup_bucket_no
    → v.first_seen_at ≡ v'.first_seen_at
    → find_row (has_same_key v) rows ≡ find_row (has_same_key v') rows
unfolding has_same_key
same_packet_cong v v' [] a b c d = refl
same_packet_cong v v' (r ∷ rs) a b c d =
    let h : has_same_key v r ≡ has_same_key v' r = ground (arith, a, b, c, d) in
    rw h (ap (λ o. if has_same_key v' r then some r else o) (same_packet_cong v v' rs a b c d))

pub same_reception_cong :
    (v v' : ReceptionRow) (rows : List ReceptionRow)
    → v.packet_id ≡ v'.packet_id
    → v.gateway_id ≡ v'.gateway_id
    → v.rx_time ≡ v'.rx_time
    → any (same_reception v) rows ≡ any (same_reception v') rows
unfolding same_reception
same_reception_cong v v' [] a b c = refl
same_reception_cong v v' (r ∷ rs) a b c =
    let h : same_reception v r ≡ same_reception v' r = ground (arith, a, b, c) in
    rw h (ap (λ o. same_reception v' r || o) (same_reception_cong v v' rs a b c))

any-append :
    (hit : ReceptionRow → Bool) (rows : List ReceptionRow) (v : ReceptionRow)
    → hit v ≡ true
    → any hit (rows ++ v ∷ []) ≡ true
any-append hit [] v h = rw h refl
any-append hit (r ∷ rs) v h = ground (arith, any-append hit rs v h)

pub insert_reception-any :
    (v : ReceptionRow) (t : PacketTables)
    → any (same_reception v) (insert_reception v t).0.receptions ≡ true
unfolding insert_reception
insert_reception-any v t =
    if-cases (λ (p : List ReceptionRow × Bool). any (same_reception v) p.0 ≡ true)
      (any (same_reception v) t.receptions) (λ e. e)
      (λ _. any-append (same_reception v) t.receptions v (unfold same_reception in ground arith))

pub found_id : ℕ → Option PacketKey → ℕ
found_id fresh none = fresh
found_id fresh (some k) = k.id

pub upsert_packet-id :
    (unchanged : ℕ) (v : PacketRow) (t : PacketTables)
    → (upsert_packet unchanged v t).1
      ≡ found_id v.id (key_found (find_row (has_same_key v) t.packets))
unfolding upsert_packet found_id
upsert_packet-id unchanged v t = elim (Option-cases (find_row (has_same_key v) t.packets)) [
  | inl e ↦ rw (e, upsert_packet) refl
  | inr (r, e) ↦ rw (e, upsert_packet) refl
]

-- After an upsert its packet is found, under the id that it gave.
pub upsert_packet-found :
    (unchanged fresh : ℕ) (v : PacketRow) (t : PacketTables)
    → found_id fresh (key_found (find_row (has_same_key v) (upsert_packet unchanged v t).0.packets))
      ≡ (upsert_packet unchanged v t).1
unfolding upsert_packet found_id
upsert_packet-found unchanged fresh v t =
    elim (Option-cases (find_row (has_same_key v) t.packets)) [
      | inl e ↦
          rw
            (
              e,
              upsert_packet,
              find_row-append (has_same_key v) t.packets v e (unfold has_same_key in ground arith),
            )
            refl
      | inr (r, e) ↦
          rw (e, upsert_packet)
            (ap (found_id fresh) (
                find_row-same v _ t.packets (
                  map-update_where packet_key (has_same_key v) (merge_packet v)
                    (λ q. unfold merge_packet in refl) t.packets))
              ∙ rw e refl)
    ]

claim_side-keys :
    (id seen : ℕ) (t : PacketTables) → keys (claim_side id seen t).0.packets ≡ keys t.packets
unfolding claim_side
claim_side-keys id seen t =
    map-update_where packet_key (is_unwritten id seen)
      (λ r. record r { decoded_side_written = true }) (λ q. refl) t.packets

bump-keys :
    (id seen : ℕ) (t : PacketTables)
    → keys (bump_reception_count id seen t).packets ≡ keys t.packets
unfolding bump_reception_count
bump-keys id seen t =
    map-update_where packet_key (is_packet id seen)
      (λ r. record r { reception_count = r.reception_count + 1 }) (λ q. refl) t.packets

-- The keys of the packets, and that the reception is there.
abbrev pub Stays : ReceptionRow → List PacketKey → PacketTables → Type 0
Stays v ks t = (keys t.packets ≡ ks) × (any (same_reception v) t.receptions ≡ true)

pub Stays-claim :
    (v : ReceptionRow) (ks : List PacketKey) (id seen : ℕ) (t : PacketTables)
    → Stays v ks t
    → Stays v ks (claim_side id seen t).0
unfolding claim_side
Stays-claim v ks id seen t (k, r) = (claim_side-keys id seen t ∙ k, r)

pub Stays-bump :
    (v : ReceptionRow) (ks : List PacketKey) (id seen : ℕ) (t : PacketTables)
    → Stays v ks t
    → Stays v ks (bump_reception_count id seen t)
unfolding bump_reception_count
Stays-bump v ks id seen t (k, r) = (bump-keys id seen t ∙ k, r)

pub not_upgraded :
    (tr : RxTransport) (x : PacketTables × ℕ) (t : PacketTables)
    → tr ≡ mqtt
    → ltb 0 (if is_rf tr then x else (t, 0)).1 ≡ false
unfolding is_rf
not_upgraded mqtt x t e = refl
not_upgraded rf x t e = absurd (cc)

pub write_side-receptions :
    (meta : IngestMeta) (env : NormalizedEnvelope) (now id : ℕ) (a : Arrival) (db : IngestDb)
    → (write_side meta env now id a db).tables.receptions ≡ db.tables.receptions
write_side-receptions meta env now id a db =
    write_side-tables meta env now (λ t. t.receptions ≡ db.tables.receptions) id a db
      (λ _. unfold claim_side in refl) refl

pub upsert_packet-receptions :
    (unchanged : ℕ) (v : PacketRow) (t : PacketTables)
    → (upsert_packet unchanged v t).0.receptions ≡ t.receptions
unfolding upsert_packet
upsert_packet-receptions unchanged v t = elim (Option-cases (find_row (has_same_key v) t.packets)) [
  | inl e ↦ rw (e, upsert_packet) refl
  | inr (r, e) ↦ rw (e, upsert_packet) refl
]
