-- ===== src/Node/Lease/Held.antt =====
-- Who holds the lease of src/db/nodelease.ts, and for how long.
use hop_watch.Prelude.{
  ℕ, ◌+◌, ◌≤◌, ◌<◌, String, ◌≡◌, refl, sym, ◌∙◌, inl, inr, Bool, true, false, Option, none, some,
  List, [], ◌∷◌, arith, str_eq, str_eq_iff, Bool-cases, if-cases, is_some, All,
}
use mathlib.Core.Bool.{false≢true}
use hop_watch.Node.Lease.{
  NodeLease, ttl_ms, is_free, acquire_node_lease, renew_node_lease, release_node_lease,
  node_lease_holder,
}

-- A statement on the lease, by any process.
pub data LeaseOp : Type 0 where
  acquires : String → String → String → ℕ → LeaseOp
  renews releases : String → ℕ → LeaseOp

abbrev pub op_time : LeaseOp → ℕ
op_time (acquires t h r now) = now
op_time (renews t now) = now
op_time (releases t now) = now

abbrev pub releases_of : String → LeaseOp → Bool
releases_of mine (releases t now) = str_eq t mine
releases_of mine _ = false

unfoldable pub after : LeaseOp → NodeLease → NodeLease
unfolding acquire_node_lease renew_node_lease release_node_lease
after (acquires t h r now) l = (acquire_node_lease t h r now l).0
after (renews t now) l = (renew_node_lease t now l).0
after (releases t now) l = release_node_lease t now l

unfoldable pub after_all : List LeaseOp → NodeLease → NodeLease
after_all [] l = l
after_all (o ∷ os) l = after_all os (after o l)

-- The lease carries the token and does not end before the time.
pub record HeldUntil (mine : String) (end : ℕ) (l : NodeLease) : Type 0 where
  pub token : l.token ≡ mine
  pub ends : ℕ
  pub expires : l.expires_at ≡ some ends
  pub late : end ≤ ends

busy_now :
    (now ends : ℕ) (l : NodeLease) → l.expires_at ≡ some ends → now < ends → is_free now l ≡ false
busy_now now ends l e h = rw e (ground arith)

after-HeldUntil :
    (mine : String) (start end : ℕ) (o : LeaseOp) (l : NodeLease)
    → end ≤ start + ttl_ms
    → start ≤ op_time o
    → op_time o < end
    → releases_of mine o ≡ false
    → HeldUntil mine end l
    → HeldUntil mine end (after o l)
unfolding after
after-HeldUntil mine start end (acquires t h r now) l span from before keep held =
    if-cases (λ (q : NodeLease × Option String). HeldUntil mine end q.0) (is_free now l)
      (λ free.
        absurd (false≢true (sym (busy_now now held.ends l held.expires (omega arith)) ∙ free)))
      (λ _. held)
after-HeldUntil mine start end (renews t now) l span from before keep held =
    if-cases (λ (q : NodeLease × Bool). HeldUntil mine end q.0) (str_eq l.token t)
      (λ own. record {
        token = held.token;
        ends = now + ttl_ms;
        expires = refl;
        late = omega arith;
      })
      (λ _. held)
after-HeldUntil mine start end (releases t now) l span from before keep held =
    if-cases (HeldUntil mine end) (str_eq l.token t)
      (λ own.
        absurd (let a = held.token in ground (arith, str_eq_iff l.token t, str_eq_iff t mine)))
      (λ _. held)

-- Statements of the time during which the holder keeps the lease, none of which is its own release.
abbrev pub Meanwhile : String → ℕ → ℕ → List LeaseOp → Type 0
Meanwhile mine start end =
    All (λ o. (start ≤ op_time o) × (op_time o < end) × (releases_of mine o ≡ false))

after_all-HeldUntil :
    (mine : String) (start end : ℕ) (os : List LeaseOp) (l : NodeLease)
    → end ≤ start + ttl_ms
    → Meanwhile mine start end os
    → HeldUntil mine end l
    → HeldUntil mine end (after_all os l)
unfolding after_all
after_all-HeldUntil mine start end [] l span h held = held
after_all-HeldUntil mine start end (o ∷ os) l span ((from, before, keep), hs) held =
    after_all-HeldUntil mine start end os (after o l) span hs
      (after-HeldUntil mine start end o l span from before keep held)

acquired-HeldUntil :
    (mine holder reason : String) (start : ℕ) (l : NodeLease)
    → (acquire_node_lease mine holder reason start l).1 ≡ some mine
    → HeldUntil mine (start + ttl_ms) (acquire_node_lease mine holder reason start l).0
unfolding acquire_node_lease
acquired-HeldUntil mine holder reason start l won = elim (Bool-cases (is_free start l)) [
  | inl free ↦
      rw free (record { token = refl; ends = start + ttl_ms; expires = refl; late = omega arith })
  | inr busy ↦ absurd (let q = won in ground arith)
]

-- Whoever takes the lease keeps it for its lifetime, or until its own release: whatever other
-- processes do to it meanwhile, its own renewals included, nobody else acquires it, it is seen as
-- held, and its token can still renew it.
pub acquire_keeps :
    (mine holder reason : String) (start now : ℕ) (l : NodeLease) (os : List LeaseOp)
    → (acquire_node_lease mine holder reason start l).1 ≡ some mine
    → Meanwhile mine start (start + ttl_ms) os
    → now < start + ttl_ms
    → ((token who why : String)
        → (acquire_node_lease token who why now
            (after_all os (acquire_node_lease mine holder reason start l).0)).1
          ≡ none)
      × (is_some
            (node_lease_holder now (after_all os (acquire_node_lease mine holder reason start l).0))
          ≡ true)
      × ((renew_node_lease mine now
            (after_all os (acquire_node_lease mine holder reason start l).0)).1
          ≡ true)
unfolding acquire_node_lease node_lease_holder renew_node_lease
acquire_keeps mine holder reason start now l os won meanwhile soon =
    let held =
      after_all-HeldUntil mine start (start + ttl_ms) os _ (omega arith) meanwhile
        (acquired-HeldUntil mine holder reason start l won) in
    at _ held
  where
    at :
        (m : NodeLease)
        → HeldUntil mine (start + ttl_ms) m
        → ((token who why : String) → (acquire_node_lease token who why now m).1 ≡ none)
          × (is_some (node_lease_holder now m) ≡ true)
          × ((renew_node_lease mine now m).1 ≡ true)
    at m h =
        let b = busy_now now h.ends m h.expires (let x = h.late in omega arith) in
        (
          λ token who why. rw b refl,
          rw b refl,
          (let t = h.token in ground (arith, str_eq_iff m.token mine)),
        )
