-- ===== src/Ingest/Pipeline/Again.antt =====
-- That a delivery which src/ingest/pipeline.ts is handed again finds its packet.
use hop_watch.Prelude.{
  ℕ, ◌<◌, ◌≡◌, refl, sym, ap, subst, ◌∙◌, ◌⊎◌, inl, inr, Bool, true, false, Option, none, some,
  List, [], ◌∷◌, ◌++◌, arith, ltb, if◌then◌else◌, Bool-cases, Option-cases, if-cases, All,
}
use mathlib.Core.Bool.{false≢true}
use hop_watch.Ingest.Pipeline.Statements.Laws.{map-update_where, All-map, find_row-none}
use hop_watch.Ingest.Pipeline.Statements.{find_row}
use hop_watch.Ingest.Pipeline.Packets.{upsert_packet, has_same_key, merge_packet}
use hop_watch.Stats.Window.{dedup_lookup_range, dedup_lookup_range_covers, bucket_start}
use hop_watch.Ingest.Pipeline.Keys.{key_found, keys, newest_copy-same, packet_key}
use hop_watch.Ingest.Pipeline.Arrival.{
  bucket_of, newer, newest_copy, first_seen_of, is_copy, has_mesh_id, rolling_copy,
}
use hop_watch.Ingest.Pipeline.Envelope.{NormalizedPacket}
use hop_watch.Ingest.Pipeline.Rows.{PacketTables, PacketRow}

-- The newest of two is one of them.
newer_pick :
    (b : Bool) (r : PacketRow) (o : Option PacketRow) {c : PacketRow}
    → (if b then newer r o else o) ≡ some c
    → ((b ≡ true) × (r ≡ c)) ⊎ (o ≡ some c)
unfolding newer
newer_pick false r o e = inr e
newer_pick true r none e =
    inl (refl, ap (λ (o : Option PacketRow). elim o [ none ↦ r | some x ↦ x ]) e)
newer_pick true r (some q) {c} e =
    if-cases
      (λ (o : Option PacketRow).
        o ≡ some c → ((◌≡◌ {A = Bool} true true) × (r ≡ c)) ⊎ (some q ≡ some c))
      (ltb r.first_seen_at q.first_seen_at) (λ _ f. inr f)
      (λ _ f. inl (refl, ap (λ (o : Option PacketRow). elim o [ none ↦ r | some x ↦ x ]) f)) e

newer-none :
    (b : Bool) (r : PacketRow) (o : Option PacketRow)
    → (if b then newer r o else o) ≡ none
    → (b ≡ false) × (o ≡ none)
unfolding newer
newer-none false r o e = (refl, e)
newer-none true r none e = absurd (cc)
newer-none true r (some q) e = absurd (
    if-cases (λ (o : Option PacketRow). o ≡ none → ⊥) (ltb r.first_seen_at q.first_seen_at)
      (λ _ f. cc) (λ _ f. cc) e)

module _ (p : NormalizedPacket) (lo hi : ℕ) where
  newest_copy-All {ℓ} :
      (P : PacketRow → Type ℓ) (rows : List PacketRow) {c : PacketRow}
      → newest_copy p lo hi rows ≡ some c
      → All (λ r. is_copy p lo hi r ≡ true → P r) rows
      → P c
  unfolding newest_copy
  newest_copy-All P [] e h = absurd (cc)
  newest_copy-All P (r ∷ rs) {c} e (k, h) =
      elim (newer_pick (is_copy p lo hi r) r (newest_copy p lo hi rs) e) [
        | inl (hit, same) ↦ subst P same (k hit)
        | inr later ↦ newest_copy-All P rs later h
      ]

  newest_copy-none :
      (rows : List PacketRow)
      → newest_copy p lo hi rows ≡ none
      → All (λ r. is_copy p lo hi r ≡ false) rows
  unfolding newest_copy
  newest_copy-none [] e = tt
  newest_copy-none (r ∷ rs) e =
      let k = newer-none (is_copy p lo hi r) r (newest_copy p lo hi rs) e in
      (k.0, newest_copy-none rs k.1)

  newest_copy-append :
      (rows : List PacketRow) (v : PacketRow)
      → All (λ r. is_copy p lo hi r ≡ false) rows
      → is_copy p lo hi v ≡ true
      → newest_copy p lo hi (rows ++ v ∷ []) ≡ some v
  unfolding newest_copy newer
  newest_copy-append [] v e h = rw h refl
  newest_copy-append (r ∷ rs) v (k, e) h = rw k (newest_copy-append rs v e h)

  -- The packet that is found has the key of the search.
  newest_copy-key :
      (rows : List PacketRow) {c : PacketRow}
      → newest_copy p lo hi rows ≡ some c
      → (c.from_node_id ≡ p.from) × (c.mesh_packet_id ≡ p.mesh_packet_id)
  newest_copy-key rows e =
      newest_copy-All (λ c. (c.from_node_id ≡ p.from) × (c.mesh_packet_id ≡ p.mesh_packet_id)) rows
        e (all_keys rows)
    where
      all_keys :
          (rows : List PacketRow)
          → All
              (λ r.
                is_copy p lo hi r ≡ true
                → (r.from_node_id ≡ p.from) × (r.mesh_packet_id ≡ p.mesh_packet_id))
              rows
      all_keys [] = tt
      all_keys (r ∷ rs) = ((λ hit. unfold is_copy in ground (arith, hit)), all_keys rs)

-- Where a packet is a copy of another by the search, they agree on bucket and first sight.
pub same_place :
    (window rx : ℕ) (p : NormalizedPacket) (o o' : Option PacketRow)
    → key_found o ≡ key_found o'
    → (bucket_of window rx o ≡ bucket_of window rx o')
      × (first_seen_of window rx p o ≡ first_seen_of window rx p o')
unfolding bucket_of first_seen_of
same_place window rx p none none e = (refl, refl)
same_place window rx p none (some r) e = absurd (cc)
same_place window rx p (some r) none e = absurd (cc)
same_place window rx p (some r) (some q) e = ground arith

pub rolling_copy-same :
    (window rx : ℕ) (p : NormalizedPacket) (xs ys : List PacketRow)
    → keys xs ≡ keys ys
    → key_found (rolling_copy window rx p xs) ≡ key_found (rolling_copy window rx p ys)
unfolding rolling_copy
rolling_copy-same window rx p xs ys e = elim (Bool-cases (has_mesh_id p)) [
  | inl on ↦
      rw on (
        newest_copy-same p (dedup_lookup_range rx window).0 (dedup_lookup_range rx window).1 xs ys
          e)
  | inr off ↦ rw off refl
]

-- After the upsert of a packet with an id, the search finds the place that the packet was given.
module _ (window rx unchanged : ℕ) (p : NormalizedPacket) (v : PacketRow) (t : PacketTables)
    (pos : 0 < window) (ided : has_mesh_id p ≡ true) (own_from : v.from_node_id ≡ p.from)
    (own_id : v.mesh_packet_id ≡ p.mesh_packet_id)
    (own_bucket : v.dedup_bucket_no ≡ bucket_of window rx (rolling_copy window rx p t.packets))
    (own_seen : v.first_seen_at
      ≡ first_seen_of window rx p (rolling_copy window rx p t.packets)) where
  rolling :
      rolling_copy window rx p t.packets
      ≡ newest_copy p (dedup_lookup_range rx window).0 (dedup_lookup_range rx window).1 t.packets
  unfolding rolling_copy
  rolling = rw ided refl

  settled :
      rolling_copy window rx p t.packets ≡ none
      → is_copy p (dedup_lookup_range rx window).0 (dedup_lookup_range rx window).1 v ≡ true
  unfolding is_copy first_seen_of
  settled e =
      let r = dedup_lookup_range_covers rx rx window pos (omega arith) (omega arith) in
      let start : v.first_seen_at ≡ bucket_start rx window =
        own_seen ∙ ap (first_seen_of window rx p) e ∙ (rw ided refl) in
      ground (arith, own_from, own_id, start, r.0, r.1)

  found_is_same :
      {c : PacketRow} → rolling_copy window rx p t.packets ≡ some c → has_same_key v c ≡ true
  unfolding has_same_key bucket_of first_seen_of
  found_is_same {c} e =
      let k = newest_copy-key p _ _ t.packets (sym rolling ∙ e) in
      let b : v.dedup_bucket_no ≡ c.dedup_bucket_no = own_bucket ∙ ap (bucket_of window rx) e in
      let s : v.first_seen_at ≡ c.first_seen_at = own_seen ∙ ap (first_seen_of window rx p) e in
      ground (arith, own_from, own_id, k.0, k.1, b, s)

  pub upsert_packet-place :
      let o = rolling_copy window rx p t.packets in
      let o' = rolling_copy window rx p (upsert_packet unchanged v t).0.packets in
      (bucket_of window rx o' ≡ bucket_of window rx o)
      × (first_seen_of window rx p o' ≡ first_seen_of window rx p o)
  unfolding upsert_packet
  upsert_packet-place = elim (Option-cases (find_row (has_same_key v) t.packets)) [
    | inr (r, e) ↦
        rw (e, upsert_packet)
          (same_place window rx p _ _ (
            rolling_copy-same window rx p _ t.packets (
              map-update_where packet_key (has_same_key v) (merge_packet v)
                (λ q. unfold merge_packet in refl) t.packets)))
    | inl e ↦ elim (Option-cases (rolling_copy window rx p t.packets)) [
      | inl f ↦
          rw (e, upsert_packet)
            (subst
              (λ o.
                (bucket_of window rx o ≡ bucket_of window rx (rolling_copy window rx p t.packets))
                × (first_seen_of window rx p o
                    ≡ first_seen_of window rx p (rolling_copy window rx p t.packets)))
              (sym (appended f)) (unfold bucket_of first_seen_of in (own_bucket, own_seen)))
      | inr (c, f) ↦ absurd (
          false≢true (
            sym (
              newest_copy-All p _ _ (λ q. has_same_key v q ≡ false) t.packets (sym rolling ∙ f)
                (All-map (λ q. has_same_key v q ≡ false) _ (λ q off _. off) t.packets
                  (find_row-none (has_same_key v) t.packets e)))
            ∙ found_is_same f))
    ]
  ]
    where
      appended :
          rolling_copy window rx p t.packets ≡ none
          → rolling_copy window rx p (t.packets ++ v ∷ []) ≡ some v
      appended f =
          unfold rolling_copy in
          rw ided (
            newest_copy-append p _ _ t.packets v
              (newest_copy-none p _ _ t.packets (sym rolling ∙ f)) (settled f))
