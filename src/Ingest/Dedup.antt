-- ===== src/Ingest/Dedup.antt =====
-- The in-process delivery cache, src/ingest/dedup.ts. A JavaScript `Map` is the association list of
-- its entries in insertion order: `set` on a known key keeps the key's place, on a new one it
-- appends. Times are milliseconds; the cache's clock is the argument `now`.
pub mod Evict
mod Held
pub mod Window
mod Tests
use hop_watch.Prelude.{
  ℕ, ◌+◌, ◌-◌, String, Bool, true, false, Option, none, some, List, [], ◌∷◌, str_eq, ltb, leb,
  if◌then◌else◌, length,
}

pub record Entry : Type 0 where
  pub exp : ℕ
  pub rank : ℕ

abbrev pub Entries : Type 0
Entries = List (String × Entry)

pub record DedupCache : Type 0 where
  pub entries : Entries
  pub ttl_ms : ℕ
  pub max_entries : ℕ

-- The constructor.
pub new_cache : ℕ → ℕ → DedupCache
new_cache ttl limit = record { entries = []; ttl_ms = ttl; max_entries = limit }

pub set_ttl : ℕ → DedupCache → DedupCache
set_ttl ttl c = record c { ttl_ms = ttl }

pub get : String → Entries → Option Entry
get k [] = none
get k ((j, e) ∷ m) = if str_eq j k then some e else get k m

pub put : String → Entry → Entries → Entries
put k e [] = (k, e) ∷ []
put k e ((j, d) ∷ m) = if str_eq j k then (k, e) ∷ m else (j, d) ∷ put k e m

-- `for (const [k, e] of this.map)`: the argument `size` is `this.map.size` during the loop.
pub drop_expired : ℕ → ℕ → ℕ → Entries → Entries
drop_expired now limit size [] = []
drop_expired now limit size ((k, e) ∷ m) =
    let dropped = if leb (size - 1) limit then m else drop_expired now limit (size - 1) m in
    let kept = (k, e) ∷ (if leb size limit then m else drop_expired now limit size m) in
    if leb e.exp now then dropped else kept

-- `while (this.map.size > this.maxEntries)`: the first key of the map goes.
pub drop_oldest : ℕ → Entries → Entries
drop_oldest limit [] = []
drop_oldest limit (x ∷ m) =
    let rest = drop_oldest limit m in if ltb limit (length (x ∷ m)) then rest else x ∷ m

pub evict : ℕ → ℕ → Entries → Entries
evict now limit m = drop_oldest limit (drop_expired now limit (length m) m)

-- The branches of `seen` on the entry that the key has.
pub claim : String → ℕ → ℕ → DedupCache → DedupCache × Bool
claim key now rank c =
    let m = put key (record { exp = now + c.ttl_ms; rank = rank }) c.entries in
    (
      record c { entries = if ltb c.max_entries (length m) then evict now c.max_entries m else m },
      false,
    )

pub seen : String → ℕ → ℕ → DedupCache → DedupCache × Bool
unfolding claim
seen key now rank c = elim (get key c.entries) [
  | none ↦ claim key now rank c
  | some e ↦
      if ltb now e.exp
      then if ltb e.rank rank
        then (
          record c { entries = put key (record { exp = now + c.ttl_ms; rank = rank }) c.entries },
          false,
        )
        else (c, true)
      else claim key now rank c
]

pub size : DedupCache → ℕ
size c = length c.entries

abbrev pub rank_json : ℕ
rank_json = 0

abbrev pub rank_protobuf : ℕ
rank_protobuf = 1

abbrev pub rank_rf : ℕ
rank_rf = 2

pub fidelity_rank : Bool → ℕ
fidelity_rank from_json = if from_json then rank_json else rank_protobuf
