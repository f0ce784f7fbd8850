-- ===== src/Ingest/Dedup/Tests.antt =====
-- Runs of the delivery cache, and the theorems at concrete caches.
use hop_watch.Prelude.{ℕ, ◌+◌, ◌≤◌, String, ◌≡◌, refl, false, List, [], ◌∷◌, arith}
use hop_watch.Ingest.Dedup.{Entry, DedupCache, get, put, drop_expired, drop_oldest, evict, seen}
use hop_watch.Ingest.Dedup.Window.{let_through_bound}
use hop_watch.Ingest.Dedup.Held.{Call, let_through}

abbrev entry : ℕ → ℕ → Entry
entry exp rank = record { exp = exp; rank = rank }

abbrev small : DedupCache
small = record {
  entries = ("a", entry 50 0) ∷ ("b", entry 200 1) ∷ [];
  ttl_ms = 100;
  max_entries = 2;
}

-- At time 60 the first entry has run out, and makes room for the new one.
evict_run : (seen "c" 60 0 small).0.entries ≡ ("b", entry 200 1) ∷ ("c", entry 160 0) ∷ []
unfolding seen get put evict drop_expired drop_oldest
evict_run = refl

abbrev roomy : DedupCache
roomy = record { entries = []; ttl_ms = 100; max_entries = 10 }

abbrev call : String → ℕ → ℕ → Call
call k t r = record { key = k; at = t; rank = r }

-- The JSON copy comes first, the protobuf copy supersedes it, the repeat is dropped.
abbrev arrivals : List Call
arrivals = call "k" 5 1 ∷ call "j" 6 1 ∷ call "k" 7 1 ∷ []

first_fresh : (seen "k" 0 0 roomy).1 ≡ false
unfolding seen get
first_fresh = refl

let_through_bound_example : 0 + let_through "k" (seen "k" 0 0 roomy).0 arrivals ≤ 2
let_through_bound_example =
    let_through_bound "k" 0 0 2 roomy arrivals first_fresh (omega arith) (omega arith) (omega arith)
      (omega arith)
