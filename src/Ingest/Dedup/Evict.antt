-- ===== src/Ingest/Dedup/Evict.antt =====
-- The size bound and the choice of victims in src/ingest/dedup.ts.
use hop_watch.Prelude.{
  ℕ, suc, ◌+◌, ◌-◌, ◌≤◌, String, ◌≡◌, refl, ap, ◌⊎◌, inl, inr, Bool, true, Option, none, some, [],
  ◌∷◌, arith, ltb, length, filter, All,
}
use hop_watch.Ingest.Dedup.{
  Entry, Entries, DedupCache, get, put, drop_expired, drop_oldest, evict, claim, seen, size,
}

abbrev pub is_live : ℕ → String × Entry → Bool
is_live now (k, e) = ltb now e.exp

length-drop_oldest : (limit : ℕ) (m : Entries) → length (drop_oldest limit m) ≤ limit
unfolding drop_oldest
length-drop_oldest limit [] = omega arith
length-drop_oldest limit (x ∷ m) = ground (arith, length-drop_oldest limit m)

drop_oldest_fits : (limit : ℕ) (m : Entries) → length m ≤ limit → drop_oldest limit m ≡ m
unfolding drop_oldest
drop_oldest_fits limit [] h = refl
drop_oldest_fits limit (x ∷ m) h = ground arith

pub length-put_known :
    (k : String) (d e : Entry) (m : Entries) → get k m ≡ some e → length (put k d m) ≡ length m
unfolding get put
length-put_known k d e [] h = cc
length-put_known k d e ((j, x) ∷ m) h = ground (arith, length-put_known k d e m)

pub length-put : (k : String) (d : Entry) (m : Entries) → length (put k d m) ≤ suc (length m)
unfolding put
length-put k d [] = omega arith
length-put k d ((j, x) ∷ m) = ground (arith, length-put k d m)

evict_bound : (now limit : ℕ) (m : Entries) → length (evict now limit m) ≤ limit
unfolding evict
evict_bound now limit m = length-drop_oldest limit (drop_expired now limit (length m) m)

size-claim :
    (key : String) (now rank : ℕ) (c : DedupCache) → size (claim key now rank c).0 ≤ c.max_entries
unfolding size claim
size-claim key now rank c =
    let m = put key (record { exp = now + c.ttl_ms; rank = rank }) c.entries in
    ground (arith, evict_bound now c.max_entries m)

-- Whatever arrives, the cache never holds more than its capacity.
pub size-seen :
    (key : String) (now rank : ℕ) (c : DedupCache)
    → size c ≤ c.max_entries
    → size (seen key now rank c).0 ≤ c.max_entries
unfolding seen
size-seen key now rank c h = split (get key c.entries) refl
  where
    split :
        (o : Option Entry) → get key c.entries ≡ o → size (seen key now rank c).0 ≤ c.max_entries
    split none e = rw (e, seen) (size-claim key now rank c)
    split (some d) e =
        let new : Entry = record { exp = now + c.ttl_ms; rank = rank } in
        rw (e, seen)
          (unfold size in
            ground (arith, size-claim key now rank c, length-put_known key new d c.entries))

-- The sweep stops when the map fits, or it has gone through the map and only live entries are left;
-- `n` entries that were kept stand before `m`, and the map's size is `s`.
drop_expired_stops :
    (now limit n s : ℕ) (m : Entries)
    → s ≡ n + length m
    → (n + length (drop_expired now limit s m) ≤ limit)
      ⊎ All (λ x. is_live now x ≡ true) (drop_expired now limit s m)
unfolding drop_expired
drop_expired_stops now limit n s [] h = inr tt
drop_expired_stops now limit n s ((k, e) ∷ m) h =
    ground
      (arith, drop_expired_stops now limit n (s - 1) m, drop_expired_stops now limit (suc n) s m)

filter-drop_expired :
    (now limit s : ℕ) (m : Entries)
    → filter (is_live now) (drop_expired now limit s m) ≡ filter (is_live now) m
unfolding drop_expired
filter-drop_expired now limit s [] = refl
filter-drop_expired now limit s ((k, e) ∷ m) =
    ground (arith, filter-drop_expired now limit (s - 1) m, filter-drop_expired now limit s m)

filter_keeps : (p : String × Entry → Bool) (m : Entries) → All (λ x. p x ≡ true) m → filter p m ≡ m
filter_keeps p [] h = refl
filter_keeps p (x ∷ m) (hx, h) = rw hx (ap (◌∷◌ x) (filter_keeps p m h))

-- As long as the live entries fit into the cache, making room costs only expired ones: the live
-- entries stay, in their order.
pub evict-live :
    (now limit : ℕ) (m : Entries)
    → length (filter (is_live now) m) ≤ limit
    → filter (is_live now) (evict now limit m) ≡ filter (is_live now) m
unfolding evict
evict-live now limit m h = split (drop_expired_stops now limit 0 (length m) m (omega arith))
  where
    swept : Entries
    swept = drop_expired now limit (length m) m

    keeps :
        length swept ≤ limit
        → filter (is_live now) (drop_oldest limit swept) ≡ filter (is_live now) m
    keeps fits = rw (drop_oldest_fits limit swept fits) (filter-drop_expired now limit (length m) m)

    split :
        (0 + length swept ≤ limit) ⊎ All (λ x. is_live now x ≡ true) swept
        → filter (is_live now) (drop_oldest limit swept) ≡ filter (is_live now) m
    split (inl fits) = keeps (omega arith)
    split (inr live) = keeps (
        omega (
          arith,
          ap length (filter_keeps (is_live now) swept live),
          ap length (filter-drop_expired now limit (length m) m),
        ))
