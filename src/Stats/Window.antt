-- ===== src/Stats/Window.antt =====
-- The window in which copies of one packet are looked for, src/lib/time.ts. Times are milliseconds;
-- the beginning of a range stops at 0.
use hop_watch.Prelude.{ℕ, ◌+◌, ◌-◌, ◌*◌, ◌/◌, ◌≤◌, ◌<◌, arith}
use native.Mathlib.Nat.{mod-lt, div-add-mod, mul_comm}

-- `Math.floor(rxTime.getTime() / 1000 / windowSeconds)`.
unfoldable pub dedup_bucket : ℕ → ℕ → ℕ
dedup_bucket rx_ms window_s = rx_ms / (window_s * 1000)

-- The value of `first_seen_at` for a copy.
unfoldable pub bucket_start : ℕ → ℕ → ℕ
unfolding dedup_bucket
bucket_start rx_ms window_s = dedup_bucket rx_ms window_s * (window_s * 1000)

unfoldable pub dedup_lookup_range : ℕ → ℕ → ℕ × ℕ
dedup_lookup_range rx_ms window_s = (rx_ms - 2 * (window_s * 1000), rx_ms + window_s * 1000)

floor_bounds : (t w : ℕ) → 0 < w → (t / w * w ≤ t) × (t < t / w * w + w)
floor_bounds t w pos =
    let whole = div-add-mod t w in
    let part = mod-lt t pos in let turn = mul_comm w (t / w) in (omega arith, omega arith)

-- Of two copies of a packet that arrive within one window of each other, in either order, the
-- bucket start of the first lies in the range that is looked up for the second.
pub dedup_lookup_range_covers :
    (first second window_s : ℕ)
    → 0 < window_s
    → first ≤ second + window_s * 1000
    → second ≤ first + window_s * 1000
    → ((dedup_lookup_range second window_s).0 ≤ bucket_start first window_s)
      × (bucket_start first window_s ≤ (dedup_lookup_range second window_s).1)
unfolding dedup_lookup_range bucket_start dedup_bucket
dedup_lookup_range_covers first second window_s pos near far =
    let (low, high) = floor_bounds first (window_s * 1000) (omega arith) in
    (omega arith, omega arith)
