-- ===== src/Tx/State/Limits.antt =====
-- Rate limits, backoff and the confirmation window of src/lib/txstate.ts.
use hop_watch.Prelude.{
  ℕ, zero, suc, ◌+◌, ◌-◌, ◌*◌, ◌^◌, ◌≤◌, min, ◌≡◌, ◌∙◌, ◌↔◌, inl, inr, true, List, [], ◌∷◌, ◌++◌,
  arith, leb, leb→le, Bool-cases,
}
use native.Mathlib.Nat.{pow-suc}
use hop_watch.Tx.State.{
  minute_ms, hour_ms, sent_within, rate_allowed, backoff_ms, OutboxKey, IncomingReception,
  is_confirmation,
}

sent_within-later :
    (w now later : ℕ) (ts : List ℕ) → now ≤ later → sent_within w later ts ≤ sent_within w now ts
unfolding sent_within
sent_within-later w now later [] h = omega arith
sent_within-later w now later (t ∷ ts) h = ground (arith, sent_within-later w now later ts h)

pub sent_within-append :
    (w now : ℕ) (xs ys : List ℕ)
    → sent_within w now (xs ++ ys) ≡ sent_within w now xs + sent_within w now ys
unfolding sent_within
sent_within-append w now [] ys = omega arith
sent_within-append w now (x ∷ xs) ys = ground (arith, sent_within-append w now xs ys)

sent_within-one : (w now : ℕ) → sent_within w now (now ∷ []) ≤ 1
unfolding sent_within
sent_within-one w now = ground arith

-- A send that is allowed leaves both windows within their caps, at the time of the send and at
-- every later time; and what is allowed stays allowed as time passes.
pub rate_allowed_lem :
    (ts : List ℕ) (now later per_minute per_hour : ℕ)
    → now ≤ later
    → rate_allowed ts now per_minute per_hour ≡ true
    → (sent_within minute_ms later (ts ++ now ∷ []) ≤ per_minute)
      × (sent_within hour_ms later (ts ++ now ∷ []) ≤ per_hour)
      × (rate_allowed ts later per_minute per_hour ≡ true)
unfolding rate_allowed
rate_allowed_lem ts now later pm ph le ok = (
  ground (arith, caps minute_ms),
  ground (arith, caps hour_ms),
  ground (
    arith,
    sent_within-later minute_ms now later ts le,
    sent_within-later hour_ms now later ts le,
  ),
)
  where
    caps : (w : ℕ) → sent_within w later (ts ++ now ∷ []) ≤ suc (sent_within w now ts)
    caps w = omega (
      arith,
      sent_within-later w now later (ts ++ now ∷ []) le,
      sent_within-append w now ts (now ∷ []),
      sent_within-one w now,
    )

pow3-suc : (n : ℕ) → 3 ^ suc n ≡ 3 * 3 ^ n
pow3-suc n = pow-suc 3 n ∙ omega arith

pow3_mono : (n m : ℕ) → n ≤ m → 3 ^ n ≤ 3 ^ m
pow3_mono n zero h = let e : n ≡ 0 = omega arith in rw e (omega arith)
pow3_mono n (suc m) h = elim (Bool-cases (leb n m)) [
  | inl below ↦ omega (arith, pow3_mono n m (leb→le _ _ below), pow3-suc m)
  | inr top ↦ let e : n ≡ suc m = ground arith in rw e (omega arith)
]

-- The delay before a retry lies between five seconds and ten minutes, never shrinks as attempts
-- add up, triples from one attempt to the next until it reaches the cap, and is the cap from the
-- sixth attempt on.
pub backoff_ms_lem :
    (a b : ℕ)
    → a ≤ b
    → (5000 ≤ backoff_ms a)
      × (backoff_ms a ≤ 600000)
      × (backoff_ms a ≤ backoff_ms b)
      × (backoff_ms (suc (suc a)) ≡ min (3 * backoff_ms (suc a)) 600000)
      × (6 ≤ a → backoff_ms a ≡ 600000)
unfolding backoff_ms
backoff_ms_lem a b le = (
  omega (arith, pow3_mono 0 (a - 1) (omega arith)),
  omega arith,
  omega (arith, pow3_mono (a - 1) (b - 1) (omega arith)),
  step,
  λ h. omega (arith, pow3_mono 5 (a - 1) (omega arith)),
)
  where
    step :
        min (5000 * 3 ^ (suc (suc a) - 1)) 600000
        ≡ min (3 * min (5000 * 3 ^ (suc a - 1)) 600000) 600000
    step =
        let e : suc (suc a) - 1 ≡ suc a = omega arith in
        let f : suc a - 1 ≡ a = omega arith in rw (e, f, pow3-suc a) (omega arith)

-- A reception confirms a row exactly if it carries the row's packet id and source and arrives from
-- one second before the send to the end of the window.
pub is_confirmation_lem :
    (o : OutboxKey) (r : IncomingReception) (window : ℕ)
    → (is_confirmation o r window ≡ true) ↔ (
        (r.packet_id ≡ o.packet_id)
        × (r.from_node ≡ o.from_node)
        × (o.sent_at ≤ r.rx_at + 1000)
        × (r.rx_at ≤ o.sent_at + window))
unfolding is_confirmation
is_confirmation_lem o r window = (λ h. ground arith, λ (p, f, early, late). ground arith)
