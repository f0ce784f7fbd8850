-- ===== src/Auth/Ratelimit/Tests.antt =====
-- Calls of the throttle, and the theorem at concrete values.
use hop_watch.Prelude.{ℕ, ◌≤◌, ◌≡◌, refl, [], ◌∷◌, arith}
use hop_watch.Auth.Ratelimit.{rate_limit}
use hop_watch.Auth.Ratelimit.Window.{Call, allowed, window_bound}

abbrev login : ℕ → Call
login t = record { key = "login:ann"; max_calls = 2; window = 100; now = t }

limited_run : allowed "login:ann" (login 0 ∷ login 10 ∷ login 20 ∷ login 30 ∷ []) [] ≡ 2
unfolding allowed rate_limit
limited_run = refl

window_bound_example : allowed "login:ann" (login 0 ∷ login 10 ∷ login 20 ∷ []) [] ≤ 2
window_bound_example =
    window_bound "login:ann" 2 100 (login 0) (login 10 ∷ login 20 ∷ []) [] refl refl (omega arith)
      (omega arith) ((omega arith, λ _. refl), ((omega arith, λ _. refl), tt))
