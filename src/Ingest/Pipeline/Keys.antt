-- ===== src/Ingest/Pipeline/Keys.antt =====
-- The columns by which src/ingest/pipeline.ts finds a packet again, which no delivery changes.
use hop_watch.Prelude.{
  ℕ, ◌≡◌, refl, sym, ap, ◌∙◌, Bool, ◌&&◌, Option, none, some, List, [], ◌∷◌, map, arith, ltb, leb,
  ◌==◌, if◌then◌else◌, if-cases,
}
use hop_watch.Ingest.Pipeline.Statements.{find_row}
use hop_watch.Ingest.Pipeline.Arrival.{newest_copy, is_copy, newer}
use hop_watch.Ingest.Pipeline.Packets.{has_same_key}
use hop_watch.Ingest.Pipeline.Envelope.{NormalizedPacket}
use hop_watch.Ingest.Pipeline.Rows.{PacketRow}

pub record PacketKey : Type 0 where
  pub id : ℕ
  pub from : ℕ
  pub mesh_id : ℕ
  pub bucket : ℕ
  pub seen : ℕ

abbrev pub packet_key : PacketRow → PacketKey
packet_key r = record {
  id = r.id;
  from = r.from_node_id;
  mesh_id = r.mesh_packet_id;
  bucket = r.dedup_bucket_no;
  seen = r.first_seen_at;
}

abbrev pub keys : List PacketRow → List PacketKey
keys = map packet_key

abbrev pub key_found : Option PacketRow → Option PacketKey
key_found none = none
key_found (some r) = some (packet_key r)

-- The searches for a packet, on keys.
abbrev newer_key : PacketKey → Option PacketKey → Option PacketKey
newer_key k none = some k
newer_key k (some q) = if ltb k.seen q.seen then some q else some k

abbrev is_copy_key : NormalizedPacket → ℕ → ℕ → PacketKey → Bool
is_copy_key p lo hi k =
    k.from == p.from && k.mesh_id == p.mesh_packet_id && leb lo k.seen && leb k.seen hi

newest_key : NormalizedPacket → ℕ → ℕ → List PacketKey → Option PacketKey
newest_key p lo hi [] = none
newest_key p lo hi (k ∷ ks) =
    let rest = newest_key p lo hi ks in if is_copy_key p lo hi k then newer_key k rest else rest

abbrev same_key : PacketRow → PacketKey → Bool
same_key v k =
    k.from == v.from_node_id
    && k.mesh_id == v.mesh_packet_id
    && k.bucket == v.dedup_bucket_no
    && k.seen == v.first_seen_at

newest_copy-keys :
    (p : NormalizedPacket) (lo hi : ℕ) (rows : List PacketRow)
    → key_found (newest_copy p lo hi rows) ≡ newest_key p lo hi (keys rows)
unfolding newest_copy newest_key
newest_copy-keys p lo hi [] = refl
newest_copy-keys p lo hi (r ∷ rs) = rw (← newest_copy-keys p lo hi rs) (at (newest_copy p lo hi rs))
  where
    at :
        (o : Option PacketRow)
        → key_found (if is_copy p lo hi r then newer r o else o) ≡ (
            if is_copy_key p lo hi (packet_key r)
            then newer_key (packet_key r) (key_found o)
            else key_found o)
    at none = ground arith
    at (some q) = ground arith

pub newest_copy-same :
    (p : NormalizedPacket) (lo hi : ℕ) (xs ys : List PacketRow)
    → keys xs ≡ keys ys
    → key_found (newest_copy p lo hi xs) ≡ key_found (newest_copy p lo hi ys)
newest_copy-same p lo hi xs ys e =
    newest_copy-keys p lo hi xs ∙ ap (newest_key p lo hi) e ∙ sym (newest_copy-keys p lo hi ys)

find_row-keys :
    (v : PacketRow) (rows : List PacketRow)
    → key_found (find_row (has_same_key v) rows) ≡ find_row (same_key v) (keys rows)
unfolding has_same_key
find_row-keys v [] = refl
find_row-keys v (r ∷ rs) =
    if-cases
      (λ (o : Option PacketRow). key_found o ≡ find_row (same_key v) (packet_key r ∷ keys rs))
      (has_same_key v r) (λ hit. rw hit refl) (λ off. rw off (find_row-keys v rs))

pub find_row-same :
    (v : PacketRow) (xs ys : List PacketRow)
    → keys xs ≡ keys ys
    → key_found (find_row (has_same_key v) xs) ≡ key_found (find_row (has_same_key v) ys)
find_row-same v xs ys e =
    find_row-keys v xs ∙ ap (find_row (same_key v)) e ∙ sym (find_row-keys v ys)
