-- ===== src/Auth/Ratelimit/Window.antt =====
-- How many calls one window of the throttle lets through, src/auth/ratelimit.ts.
use hop_watch.Prelude.{
  ℕ, suc, ◌+◌, ◌-◌, ◌≤◌, ◌<◌, String, ◌≡◌, refl, sym, subst, ◌∙◌, inl, inr, Bool, true, false, not,
  ◌&&◌, some, List, [], ◌∷◌, arith, str_eq, str_eq_iff, ltb, if◌then◌else◌, Bool-cases, if-cases,
  length, All,
}
use hop_watch.Auth.Ratelimit.{
  Bucket, Buckets, get_bucket, set_bucket, prune_buckets, prune_over, max_buckets, current, Limit,
  limit_of, rate_limit,
}

-- One call of the limiter: its key, limit, window and time.
pub record Call : Type 0 where
  pub key : String
  pub max_calls : ℕ
  pub window : ℕ
  pub now : ℕ

abbrev pub step : Call → Buckets → Buckets × Limit
step c = rate_limit c.key c.max_calls c.window c.now

-- How many of the calls with the key are let through.
unfoldable pub allowed : String → List Call → Buckets → ℕ
allowed key [] bs = 0
allowed key (c ∷ cs) bs =
    let r = step c bs in
    let rest = allowed key cs r.0 in if str_eq c.key key && not r.1.limited then suc rest else rest

-- All the calls come before a time, and those with the key ask for the limit.
abbrev pub Within : String → ℕ → ℕ → List Call → Type 0
Within key limit end = All (λ c. (c.now < end) × (str_eq c.key key ≡ true → c.max_calls ≡ limit))

get-set : (key : String) (b : Bucket) (bs : Buckets) → get_bucket key (set_bucket key b bs) ≡ some b
get-set key b [] = ground (arith, str_eq_iff key key)
get-set key b ((k, c) ∷ bs) = ground (arith, get-set key b bs)

get-set_other :
    (key other : String) (b : Bucket) (bs : Buckets)
    → str_eq other key ≡ false
    → get_bucket key (set_bucket other b bs) ≡ get_bucket key bs
get-set_other key other b [] ne = ground arith
get-set_other key other b ((k, c) ∷ bs) ne = ground (
  arith,
  get-set_other key other b bs ne,
  str_eq_iff k other,
  str_eq_iff k key,
  str_eq_iff other key,
)

get-prune :
    (key : String) (now : ℕ) (b : Bucket) (bs : Buckets)
    → now < b.reset_at
    → get_bucket key bs ≡ some b
    → get_bucket key (prune_buckets now bs) ≡ some b
get-prune key now b [] h e = e
get-prune key now b ((k, c) ∷ bs) h e = ground (arith, get-prune key now b bs h)

get-prune_over :
    (key : String) (now : ℕ) (b : Bucket) (bs : Buckets)
    → now < b.reset_at
    → get_bucket key bs ≡ some b
    → get_bucket key (prune_over now bs) ≡ some b
get-prune_over key now b bs h e =
    if-cases (λ bs'. get_bucket key bs' ≡ some b) (ltb max_buckets (length bs))
      (λ _. get-prune key now b bs h e) (λ _. e)

current-live : (b : Bucket) (now window : ℕ) → now < b.reset_at → current (some b) now window ≡ b
current-live b now window h = ground arith

-- The bucket after a call with the key in its window, and after a call with another key.
get-step :
    (key : String) (max_calls window now : ℕ) (b : Bucket) (bs : Buckets)
    → current (get_bucket key bs) now window ≡ b
    → now < b.reset_at
    → get_bucket key (rate_limit key max_calls window now bs).0
      ≡ some (record b { count = b.count + 1 })
unfolding rate_limit
get-step key max_calls window now b bs e h =
    rw e (get-prune_over key now (record b { count = b.count + 1 }) _ h (get-set key _ bs))

get-step_other :
    (key : String) (c : Call) (b : Bucket) (bs : Buckets)
    → str_eq c.key key ≡ false
    → get_bucket key bs ≡ some b
    → c.now < b.reset_at
    → get_bucket key (step c bs).0 ≡ some b
unfolding rate_limit
get-step_other key c b bs ne e h =
    get-prune_over key c.now b _ h (get-set_other key c.key _ bs ne ∙ e)

limited-step :
    (key : String) (max_calls window now : ℕ) (b : Bucket) (bs : Buckets)
    → current (get_bucket key bs) now window ≡ b
    → (rate_limit key max_calls window now bs).1.limited ≡ ltb max_calls (b.count + 1)
unfolding rate_limit
limited-step key max_calls window now b bs e = rw e (branch (record b { count = b.count + 1 }))
  where
    branch : (b' : Bucket) → (limit_of max_calls now b').limited ≡ ltb max_calls b'.count
    branch b' = ground arith

module _ (key : String) (limit end : ℕ) where
  -- A call with the key in its window, with what is let through after it.
  allowed_own :
      (c : Call) (cs : List Call) (b : Bucket) (bs : Buckets)
      → str_eq c.key key ≡ true
      → c.max_calls ≡ limit
      → current (get_bucket key bs) c.now c.window ≡ b
      → allowed key cs (step c bs).0 ≤ limit - (b.count + 1)
      → allowed key (c ∷ cs) bs ≤ limit - b.count
  unfolding allowed
  allowed_own c cs b bs own asks e rest =
      let same : c.key ≡ key = (str_eq_iff c.key key).0 own in
      let l : (step c bs).1.limited ≡ ltb c.max_calls (b.count + 1) =
        limited-step c.key c.max_calls c.window c.now b bs
          (subst (λ k. current (get_bucket k bs) c.now c.window ≡ b) (sym same) e) in
      counted (step c bs).1.limited c.max_calls _ _ own l asks rest
    where
      counted :
          (lim : Bool) (max_calls n a : ℕ) {o : Bool}
          → o ≡ true
          → lim ≡ ltb max_calls (n + 1)
          → max_calls ≡ limit
          → a ≤ limit - (n + 1)
          → (if o && not lim then suc a else a) ≤ limit - n
      counted lim max_calls n a h k m r = ground arith

  get_own :
      (c : Call) (b : Bucket) (bs : Buckets)
      → str_eq c.key key ≡ true
      → current (get_bucket key bs) c.now c.window ≡ b
      → c.now < b.reset_at
      → get_bucket key (step c bs).0 ≡ some (record b { count = b.count + 1 })
  get_own c b bs own e h =
      let same : c.key ≡ key = (str_eq_iff c.key key).0 own in
      subst (λ k. get_bucket k (step c bs).0 ≡ some (record b { count = b.count + 1 })) same
        (get-step c.key c.max_calls c.window c.now b bs
          (subst (λ k. current (get_bucket k bs) c.now c.window ≡ b) (sym same) e) h)

  allowed_live :
      (cs : List Call) (b : Bucket) (bs : Buckets)
      → Within key limit end cs
      → get_bucket key bs ≡ some b
      → end ≤ b.reset_at
      → allowed key cs bs ≤ limit - b.count
  unfolding allowed
  allowed_live [] b bs h e w = omega arith
  allowed_live (c ∷ cs) b bs ((early, asks), hs) e w =
      let soon : c.now < b.reset_at = omega arith in
      elim (Bool-cases (str_eq c.key key)) [
        | inl own ↦
            let cur : current (get_bucket key bs) c.now c.window ≡ b =
              rw e (current-live b c.now c.window soon) in
            let rest =
              allowed_live cs (record b { count = b.count + 1 }) (step c bs).0 hs
                (get_own c b bs own cur soon) w in
            allowed_own c cs b bs own (asks own) cur rest
        | inr other ↦
            let rest =
              allowed_live cs b (step c bs).0 hs (get-step_other key c b bs other e soon) w in
            rw other rest
      ]

  -- From a call on, and until the end of the window it counts in, whatever other keys are used and
  -- however the map is pruned, at most the limit is let through for a key, less what the window
  -- has counted already.
  pub window_bound :
      (c : Call) (cs : List Call) (bs : Buckets)
      → str_eq c.key key ≡ true
      → c.max_calls ≡ limit
      → c.now < end
      → end ≤ (current (get_bucket key bs) c.now c.window).reset_at
      → Within key limit end cs
      → allowed key (c ∷ cs) bs ≤ limit - (current (get_bucket key bs) c.now c.window).count
  window_bound c cs bs own asks early open_until h =
      let b = current (get_bucket key bs) c.now c.window in
      let soon : c.now < b.reset_at = omega arith in
      allowed_own c cs b bs own asks refl (
        allowed_live cs (record b { count = b.count + 1 }) (step c bs).0 h
          (get_own c b bs own refl soon) open_until)
