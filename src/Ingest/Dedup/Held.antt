-- ===== src/Ingest/Dedup/Held.antt =====
-- How long src/ingest/dedup.ts holds a key, over a run of calls.
use hop_watch.Prelude.{
  ℕ, suc, ◌+◌, ◌≤◌, ◌<◌, String, ◌≡◌, refl, sym, subst, ◌∙◌, ◌⊎◌, inl, inr, true, false, not, ◌&&◌,
  Option, none, some, List, [], ◌∷◌, arith, str_eq, str_eq_iff, ltb, if◌then◌else◌, lt→ltb,
  Bool-cases, length, All,
}
use hop_watch.Ingest.Dedup.Evict.{length-put}
use hop_watch.Ingest.Dedup.{Entry, Entries, DedupCache, get, put, claim, seen}

pub record Call : Type 0 where
  pub key : String
  pub at : ℕ
  pub rank : ℕ

-- A run of deliveries, and how many of them were let through under one key.
pub run : DedupCache → List Call → DedupCache
run c [] = c
run c (x ∷ xs) = run (seen x.key x.at x.rank c).0 xs

pub let_through : String → DedupCache → List Call → ℕ
let_through key c [] = 0
let_through key c (x ∷ xs) =
    (if str_eq x.key key && not (seen x.key x.at x.rank c).1 then 1 else 0)
    + let_through key (seen x.key x.at x.rank c).0 xs

pub get-put :
    (k j : String) (e : Entry) (m : Entries)
    → get j (put k e m) ≡ (if str_eq k j then some e else get j m)
unfolding get put
get-put k j e [] = refl
get-put k j e ((i, d) ∷ m) =
    ground (arith, str_eq_iff k j, str_eq_iff i k, str_eq_iff i j, get-put k j e m)

-- The key is held until `until`, by a copy of rank `r`.
abbrev pub Holds : String → ℕ → ℕ → DedupCache → Type 0
Holds key r until c = (e : Entry) × (get key c.entries ≡ some e) × (until ≤ e.exp) × (r ≡ e.rank)

-- Deliveries between the first copy and the end of its window.
abbrev pub Within : ℕ → ℕ → List Call → Type 0
Within start until = All (λ x. (start ≤ x.at) × (x.at < until))

-- The outcome for a key that is still held, and for another key while nothing is evicted.
pub seen_held :
    (key : String) (now rank : ℕ) (c : DedupCache) (e : Entry)
    → get key c.entries ≡ some e
    → now < e.exp
    → seen key now rank c ≡ (
        if ltb e.rank rank
        then (
          record c { entries = put key (record { exp = now + c.ttl_ms; rank = rank }) c.entries },
          false,
        )
        else (c, true))
unfolding seen
seen_held key now rank c e h lt = rw (h, seen) (rw (lt→ltb _ _ lt) refl)

claim_other :
    (key other : String) (now rank : ℕ) (c : DedupCache)
    → str_eq other key ≡ false
    → suc (length c.entries) ≤ c.max_entries
    → get key (claim other now rank c).0.entries ≡ get key c.entries
unfolding claim
claim_other key other now rank c ne room =
    let new : Entry = record { exp = now + c.ttl_ms; rank = rank } in
    ground (arith, get-put other key new c.entries, length-put other new c.entries)

seen_other :
    (key other : String) (now rank : ℕ) (c : DedupCache)
    → str_eq other key ≡ false
    → suc (length c.entries) ≤ c.max_entries
    → get key (seen other now rank c).0.entries ≡ get key c.entries
unfolding seen
seen_other key other now rank c ne room = split (get other c.entries) refl
  where
    split :
        (o : Option Entry)
        → get other c.entries ≡ o
        → get key (seen other now rank c).0.entries ≡ get key c.entries
    split none e = rw (e, seen) (claim_other key other now rank c ne room)
    split (some d) e =
        let new : Entry = record { exp = now + c.ttl_ms; rank = rank } in
        rw (e, seen)
          (ground
            (arith, claim_other key other now rank c ne room, get-put other key new c.entries))

-- The settings stay, and a delivery adds one entry at most.
pub seen_room :
    (key : String) (now rank : ℕ) (c : DedupCache)
    → suc (length c.entries) ≤ c.max_entries
    → (length (seen key now rank c).0.entries ≤ suc (length c.entries))
      × ((seen key now rank c).0.ttl_ms ≡ c.ttl_ms)
      × ((seen key now rank c).0.max_entries ≡ c.max_entries)
unfolding seen claim
seen_room key now rank c room =
    let new : Entry = record { exp = now + c.ttl_ms; rank = rank } in
    ground (arith, length-put key new c.entries)

-- A delivery in the window leaves the key held, at a rank that counts what was let through.
step_held :
    (key : String) (r until : ℕ) (c : DedupCache) (x : Call)
    → Holds key r until c
    → suc (length c.entries) ≤ c.max_entries
    → x.at < until
    → until ≤ x.at + c.ttl_ms
    → (s : ℕ) × Holds key s until (seen x.key x.at x.rank c).0
      × (r + (if str_eq x.key key && not (seen x.key x.at x.rank c).1 then 1 else 0) ≤ s)
      × ((s ≡ r) ⊎ (s ≡ x.rank))
step_held key r until c x (e, found, later, same) room lt long =
    elim (Bool-cases (str_eq x.key key)) [
      | inr other ↦ (
        r,
        (e, seen_other key x.key x.at x.rank c other room ∙ found, later, same),
        rw other (omega arith),
        inl refl,
      )
      | inl mine ↦
          let found' : get x.key c.entries ≡ some e =
            subst (λ k. get k c.entries ≡ some e) (sym ((str_eq_iff x.key key).0 mine)) found in
          let held = seen_held x.key x.at x.rank c e found' (omega arith) in
          elim (Bool-cases (ltb e.rank x.rank)) [
            | inl better ↦
                let new : Entry = record { exp = x.at + c.ttl_ms; rank = x.rank } in
                let there : get key (put x.key new c.entries) ≡ some new =
                  get-put x.key key new c.entries ∙ rw mine refl in
                (
                  x.rank,
                  rw (held, better) (new, there, long, refl),
                  rw (mine, held, better) (ground arith),
                  inr refl,
                )
            | inr worse ↦ (
              r,
              rw (held, worse) (e, found, later, same),
              rw (mine, held, worse) (omega arith),
              inl refl,
            )
          ]
    ]

-- What a run in the window comes to: the key is held, and the copies that were let through are
-- no more than the ranks gained.
abbrev pub Outcome : String → ℕ → ℕ → ℕ → ℕ → DedupCache → List Call → Type 0
Outcome key r until ttl top c xs =
    (s : ℕ) × Holds key s until (run c xs) × (r + let_through key c xs ≤ s) × (s ≤ top)

pub run_held :
    (key : String) (r start until ttl top : ℕ) (c : DedupCache) (xs : List Call)
    → Holds key r until c
    → length c.entries + length xs ≤ c.max_entries
    → c.ttl_ms ≡ ttl
    → until ≤ start + ttl
    → r ≤ top
    → Within start until xs
    → All (λ x. x.rank ≤ top) xs
    → Outcome key r until ttl top c xs
unfolding run let_through
run_held key r start until ttl top c [] h room set long le w ranks = (r, h, omega arith, le)
run_held key r start until ttl top c (x ∷ xs) h room set long le ((from, lt), w) (rank, ranks) =
    let (s, held, gain, which) = step_held key r until c x h (omega arith) lt (omega arith) in
    let (grown, same_ttl, same_max) = seen_room x.key x.at x.rank c (omega arith) in
    let (t, held', gain', le') =
      run_held key s start until ttl top (seen x.key x.at x.rank c).0 xs held (omega arith)
        (same_ttl ∙ set) long (omega arith) w ranks in
    (t, held', omega arith, le')
