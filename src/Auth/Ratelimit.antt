-- ===== src/Auth/Ratelimit.antt =====
-- The login throttle, src/auth/ratelimit.ts. The map of buckets is the list of its entries in
-- insertion order; times are milliseconds.
pub mod Window
mod Tests
use hop_watch.Prelude.{
  ℕ, ◌+◌, ◌-◌, ◌/◌, String, Bool, true, false, not, Option, none, some, List, [], ◌∷◌, str_eq, ltb,
  leb, if◌then◌else◌, length, filter,
}

pub record Bucket : Type 0 where
  pub count : ℕ
  pub reset_at : ℕ

abbrev pub Buckets : Type 0
Buckets = List (String × Bucket)

abbrev pub get_bucket : String → Buckets → Option Bucket
get_bucket key [] = none
get_bucket key ((k, b) ∷ bs) = if str_eq k key then some b else get_bucket key bs

-- `Map.set`: in place for a key that is there, at the end otherwise.
abbrev pub set_bucket : String → Bucket → Buckets → Buckets
set_bucket key b [] = (key, b) ∷ []
set_bucket key b ((k, c) ∷ bs) =
    let rest = set_bucket key b bs in if str_eq k key then (k, b) ∷ bs else (k, c) ∷ rest

abbrev pub prune_buckets : ℕ → Buckets → Buckets
prune_buckets now bs = filter (λ e. not (leb e.1.reset_at now)) bs

abbrev pub max_buckets : ℕ
max_buckets = 5000

-- Over 5000 keys the buckets whose window is over are pruned.
abbrev pub prune_over : ℕ → Buckets → Buckets
prune_over now bs = if ltb max_buckets (length bs) then prune_buckets now bs else bs

-- The bucket that a call counts in: the one that is there, or a new one where there is none or its
-- window is over.
abbrev pub current : Option Bucket → ℕ → ℕ → Bucket
current none now window = record { count = 0; reset_at = now + window }
current (some b) now window =
    if leb b.reset_at now then record { count = 0; reset_at = now + window } else b

pub record Limit : Type 0 where
  pub limited : Bool
  pub retry_after_s : ℕ

-- `Math.ceil((b.resetAt - now) / 1000)`.
abbrev pub ceil_seconds : ℕ → ℕ
ceil_seconds ms = (ms + 999) / 1000

abbrev pub limit_of : ℕ → ℕ → Bucket → Limit
limit_of max_calls now b =
    if ltb max_calls b.count
    then record { limited = true; retry_after_s = ceil_seconds (b.reset_at - now) }
    else record { limited = false; retry_after_s = 0 }

unfoldable pub rate_limit : String → ℕ → ℕ → ℕ → Buckets → Buckets × Limit
rate_limit key max_calls window now bs =
    let b = current (get_bucket key bs) now window in
    let b' : Bucket = record b { count = b.count + 1 } in
    (prune_over now (set_bucket key b' bs), limit_of max_calls now b')

unfoldable pub rate_limit_reset : String → Buckets → Buckets
rate_limit_reset key bs = filter (λ e. not (str_eq e.0 key)) bs
