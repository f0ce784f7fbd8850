-- ===== src/Ingest/Dedup/Window.antt =====
-- Suppression of repeated deliveries over a run of calls of src/ingest/dedup.ts.
use hop_watch.Prelude.{
  ℕ, suc, ◌+◌, ◌≤◌, ◌<◌, String, ◌≡◌, refl, ◌∙◌, inl, inr, true, false, Option, none, some, List,
  arith, str_eq_iff, ltb, ltb→lt, Bool-cases, length, All,
}
use native.Mathlib.Nat.{le_trans}
use hop_watch.Ingest.Dedup.Evict.{length-put}
use hop_watch.Ingest.Dedup.{Entry, DedupCache, get, put, claim, seen}
use hop_watch.Ingest.Dedup.Held.{
  Call, run, let_through, get-put, Holds, Within, seen_held, seen_room, Outcome, run_held,
}

-- The first copy that is let through holds its key for a whole window.
first_held :
    (key : String) (start r : ℕ) (c : DedupCache)
    → suc (length c.entries) ≤ c.max_entries
    → (seen key start r c).1 ≡ false
    → Holds key r (start + c.ttl_ms) (seen key start r c).0
unfolding seen claim
first_held key start r c room fresh = split (get key c.entries) refl
  where
    new : Entry
    new = record { exp = start + c.ttl_ms; rank = r }

    there : get key (put key new c.entries) ≡ some new
    there = get-put key key new c.entries ∙ rw ((str_eq_iff key key).1 refl) refl

    fits : ltb c.max_entries (length (put key new c.entries)) ≡ false
    fits = ground (arith, length-put key new c.entries)

    split :
        (o : Option Entry)
        → get key c.entries ≡ o
        → Holds key r (start + c.ttl_ms) (seen key start r c).0
    split none e = rw (e, seen) (rw fits (new, there, omega arith, refl))
    split (some d) e = elim (Bool-cases (ltb start d.exp)) [
      | inr gone ↦ rw (e, seen) (rw (gone, fits) (new, there, omega arith, refl))
      | inl live ↦ elim (Bool-cases (ltb d.rank r)) [
        | inl better ↦ rw (e, seen) (rw (live, better) (new, there, omega arith, refl))
        | inr worse ↦
            let held = seen_held key start r c d e (ltb→lt _ _ live) in
            let dup : (seen key start r c).1 ≡ true = rw (held, worse) refl in absurd (cc)
      ]
    ]

seen_room_first :
    (key : String) (now rank : ℕ) (c : DedupCache)
    → suc (length c.entries) ≤ c.max_entries
    → ((seen key now rank c).0.ttl_ms ≡ c.ttl_ms)
      × (length (seen key now rank c).0.entries ≤ suc (length c.entries))
      × ((seen key now rank c).0.max_entries ≡ c.max_entries)
seen_room_first key now rank c room =
    let (grown, ttl, limit) = seen_room key now rank c room in (ttl, grown, limit)

-- After a first copy, the run of what follows in its window.
after_first :
    (key : String) (start r top : ℕ) (c : DedupCache) (xs : List Call)
    → (seen key start r c).1 ≡ false
    → suc (length c.entries + length xs) ≤ c.max_entries
    → r ≤ top
    → Within start (start + c.ttl_ms) xs
    → All (λ x. x.rank ≤ top) xs
    → Outcome key r (start + c.ttl_ms) c.ttl_ms top (seen key start r c).0 xs
after_first key start r top c xs fresh room le w ranks =
    let (ttl, grown, limit) = seen_room_first key start r c (omega arith) in
    run_held key r start (start + c.ttl_ms) c.ttl_ms top (seen key start r c).0 xs
      (first_held key start r c (omega arith) fresh) (omega arith) ttl (omega arith) le w ranks

-- Once a copy of a delivery has been let through, then while its window lasts and the cache has
-- room for what arrives, at most one further copy is let through for each fidelity rank above its
-- own: with a top rank of 2 a delivery is processed three times at most.
pub let_through_bound :
    (key : String) (start r top : ℕ) (c : DedupCache) (xs : List Call)
    → (seen key start r c).1 ≡ false
    → suc (length c.entries + length xs) ≤ c.max_entries
    → r ≤ top
    → Within start (start + c.ttl_ms) xs
    → All (λ x. x.rank ≤ top) xs
    → r + let_through key (seen key start r c).0 xs ≤ top
let_through_bound key start r top c xs fresh room le w ranks =
    let (s, held, gain, most) = after_first key start r top c xs fresh room le w ranks in
    le_trans gain most

-- And a later copy in the same window whose rank is not above that of the first is reported as a
-- duplicate and changes nothing, whatever other deliveries came between.
pub seen_duplicate :
    (key : String) (start r top now rank : ℕ) (c : DedupCache) (xs : List Call)
    → (seen key start r c).1 ≡ false
    → suc (length c.entries + length xs) ≤ c.max_entries
    → r ≤ top
    → Within start (start + c.ttl_ms) xs
    → All (λ x. x.rank ≤ top) xs
    → now < start + c.ttl_ms
    → rank ≤ r
    → seen key now rank (run (seen key start r c).0 xs) ≡ (run (seen key start r c).0 xs, true)
seen_duplicate key start r top now rank c xs fresh room le w ranks lt small =
    let (s, (e, found, later, same), gain, most) =
      after_first key start r top c xs fresh room le w ranks in
    let worse : ltb e.rank rank ≡ false = ground arith in
    seen_held key now rank (run (seen key start r c).0 xs) e found (omega arith) ∙ rw worse refl
