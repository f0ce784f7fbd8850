-- ===== src/Tx/Outbox/Touched.antt =====
-- What a statement of src/db/tx.ts on one row of the outbox leaves as it was.
use hop_watch.Prelude.{
  ℕ, ◌<◌, ◌≡◌, refl, ◌∙◌, ◌≢◌, inl, inr, Bool, true, false, not, ◌&&◌, [], ◌∷◌, arith, ◌==◌,
  Bool-cases, any,
}
use hop_watch.Tx.Outbox.{OutboxRow, Outbox, is_pending, update_outbox, update_pending}

-- There is a row of that id; one of that id waits to be sent; no two rows share an id.
abbrev pub has_id : ℕ → Outbox → Bool
has_id id = any (λ r. r.id == id)

abbrev pub waiting : ℕ → Outbox → Bool
waiting id = any (λ r. r.id == id && is_pending r.state)

abbrev pub distinct : Outbox → Bool
distinct [] = true
distinct (r ∷ rs) = not (has_id r.id rs) && distinct rs

-- A change of the row `j` alone, which keeps every id.
pub record Touches (j : ℕ) (db db' : Outbox) : Type 0 where
  pub ids : (i : ℕ) → has_id i db' ≡ has_id i db
  pub others : (i : ℕ) → i ≢ j → waiting i db' ≡ waiting i db
  pub keys : distinct db' ≡ distinct db

pub Touches-refl : (j : ℕ) (db : Outbox) → Touches j db db
Touches-refl j db = record { ids = λ i. refl; others = λ i ne. refl; keys = refl }

pub Touches-trans : (j : ℕ) {a b c : Outbox} → Touches j a b → Touches j b c → Touches j a c
Touches-trans j s t = record {
  ids = λ i. t.ids i ∙ s.ids i;
  others = λ i ne. t.others i ne ∙ s.others i ne;
  keys = t.keys ∙ s.keys;
}

-- What waits is there.
pub waiting_absent : (id : ℕ) (db : Outbox) → has_id id db ≡ false → waiting id db ≡ false
waiting_absent id [] h = refl
waiting_absent id (r ∷ rs) h = ground (arith, waiting_absent id rs)

-- Patches keep the primary key.
abbrev pub KeepsId : (OutboxRow → OutboxRow) → Type 0
KeepsId patch = (r : OutboxRow) → (patch r).id ≡ r.id

module _ (j : ℕ) (patch : OutboxRow → OutboxRow) (keep : KeepsId patch) where
  has_id-update : (i : ℕ) (db : Outbox) → has_id i (update_outbox j patch db) ≡ has_id i db
  unfolding update_outbox
  has_id-update i [] = refl
  has_id-update i (r ∷ rs) = ground (arith, keep r, has_id-update i rs)

  waiting-update :
      (i : ℕ) (db : Outbox) → i ≢ j → waiting i (update_outbox j patch db) ≡ waiting i db
  unfolding update_outbox
  waiting-update i [] ne = refl
  waiting-update i (r ∷ rs) ne = ground (arith, keep r, waiting-update i rs ne)

  distinct-update : (db : Outbox) → distinct (update_outbox j patch db) ≡ distinct db
  unfolding update_outbox
  distinct-update [] = refl
  distinct-update (r ∷ rs) =
      ground (arith, keep r, has_id-update r.id rs, has_id-update j rs, distinct-update rs)

  pub update_outbox-Touches : (db : Outbox) → Touches j db (update_outbox j patch db)
  update_outbox-Touches db = record {
    ids = λ i. has_id-update i db;
    others = λ i. waiting-update i db;
    keys = distinct-update db;
  }

  has_id-pending : (i : ℕ) (db : Outbox) → has_id i (update_pending j patch db).0 ≡ has_id i db
  unfolding update_pending
  has_id-pending i [] = refl
  has_id-pending i (r ∷ rs) = ground (arith, keep r, has_id-pending i rs)

  waiting-pending :
      (i : ℕ) (db : Outbox) → i ≢ j → waiting i (update_pending j patch db).0 ≡ waiting i db
  unfolding update_pending
  waiting-pending i [] ne = refl
  waiting-pending i (r ∷ rs) ne = ground (arith, keep r, waiting-pending i rs ne)

  distinct-pending : (db : Outbox) → distinct (update_pending j patch db).0 ≡ distinct db
  unfolding update_pending
  distinct-pending [] = refl
  distinct-pending (r ∷ rs) = ground (arith, keep r, has_id-pending r.id rs, distinct-pending rs)

  pub update_pending-Touches : (db : Outbox) → Touches j db (update_pending j patch db).0
  update_pending-Touches db = record {
    ids = λ i. has_id-pending i db;
    others = λ i. waiting-pending i db;
    keys = distinct-pending db;
  }

  -- With a patch that takes rows out of the queue nothing waits under that id.
  pub waiting-pending_self :
      ((r : OutboxRow) → is_pending (patch r).state ≡ false)
      → (db : Outbox) → waiting j (update_pending j patch db).0 ≡ false
  unfolding update_pending
  waiting-pending_self out [] = refl
  waiting-pending_self out (r ∷ rs) = ground (arith, keep r, out r, waiting-pending_self out rs)

  pub waiting-update_self :
      ((r : OutboxRow) → is_pending (patch r).state ≡ false)
      → (db : Outbox) → waiting j (update_outbox j patch db) ≡ false
  unfolding update_outbox
  waiting-update_self out [] = refl
  waiting-update_self out (r ∷ rs) = ground (arith, keep r, out r, waiting-update_self out rs)

  pub waiting-update_same :
      ((r : OutboxRow) → (patch r).state ≡ r.state)
      → (db : Outbox) → waiting j (update_outbox j patch db) ≡ waiting j db
  unfolding update_outbox
  waiting-update_same same [] = refl
  waiting-update_same same (r ∷ rs) = ground (arith, keep r, same r, waiting-update_same same rs)

  -- What no row waits for changes nothing; what some row waited for hits a row of that id.
  pub update_pending-none :
      (db : Outbox) → waiting j db ≡ false → update_pending j patch db ≡ (db, 0)
  unfolding update_pending
  update_pending-none [] h = refl
  update_pending-none (r ∷ rs) h = ground (arith, update_pending-none rs)

  pub update_pending-some : (db : Outbox) → 0 < (update_pending j patch db).1 → has_id j db ≡ true
  unfolding update_pending
  update_pending-some [] h = absurd (omega arith)
  update_pending-some (r ∷ rs) h = ground (arith, update_pending-some rs)

  -- Where ids are distinct, a row that waits is the one that is hit.
  pub update_pending-one :
      (db : Outbox) → distinct db ≡ true → waiting j db ≡ true → (update_pending j patch db).1 ≡ 1
  unfolding update_pending
  update_pending-one [] d h = absurd (cc)
  update_pending-one (r ∷ rs) d h = elim (Bool-cases (r.id == j && is_pending r.state)) [
    | inl hit ↦
        let none_else = update_pending-none rs (waiting_absent j rs (ground arith)) in
        rw (hit, none_else) refl
    | inr miss ↦ rw miss (update_pending-one rs (ground arith) (ground arith))
  ]
