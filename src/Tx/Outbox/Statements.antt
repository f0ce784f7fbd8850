-- ===== src/Tx/Outbox/Statements.antt =====
-- What the statements of src/db/tx.ts do to the rows that wait to be sent.
use hop_watch.Prelude.{
  ℕ, zero, suc, ◌≡◌, refl, sym, subst, ◌∙◌, inl, inr, Bool, true, false, ◌||◌, some, [], ◌∷◌, arith,
  ◌==◌, ==_iff, Bool-cases, take, filter,
}
use hop_watch.Tx.State.{sending, cancelled}
use hop_watch.Tx.Outbox.{
  OutboxRow, Outbox, is_pending, claim_for_send, cancel_outbox, list_pending_tx,
  fail_interrupted_sends, enqueue_tx, EnqueueInput,
}
use hop_watch.Tx.Outbox.Touched.{
  has_id, waiting, distinct, Touches, update_pending-Touches, update_pending-some,
  update_pending-none, waiting-pending_self, waiting_absent, update_pending-one,
}

abbrev claimed : ℕ → OutboxRow → OutboxRow
claimed now r = record r { state = sending; last_attempt_at = some now }

abbrev withdrawn : OutboxRow → OutboxRow
withdrawn r = record r { state = cancelled }

pub claim_for_send-Touches : (id now : ℕ) (db : Outbox) → Touches id db (claim_for_send id now db).0
unfolding claim_for_send
claim_for_send-Touches id now db = update_pending-Touches id (claimed now) (λ r. refl) db

pub waiting-claim_for_send :
    (id now : ℕ) (db : Outbox) → waiting id (claim_for_send id now db).0 ≡ false
unfolding claim_for_send
waiting-claim_for_send id now db =
    waiting-pending_self id (claimed now) (λ r. refl) (λ r. unfold is_pending in refl) db

pub has_id-claim_for_send :
    (id now : ℕ) (db : Outbox) → (claim_for_send id now db).1 ≡ true → has_id id db ≡ true
unfolding claim_for_send
has_id-claim_for_send id now db won =
    update_pending-some id (claimed now) (λ r. refl) db (ground arith)

has_id-filter :
    (id : ℕ) (db : Outbox) → has_id id (filter (λ r. is_pending r.state) db) ≡ waiting id db
has_id-filter id [] = refl
has_id-filter id (r ∷ rs) = ground (arith, has_id-filter id rs)

has_id-take : (id n : ℕ) (db : Outbox) → has_id id db ≡ false → has_id id (take n db) ≡ false
has_id-take id zero db h = refl
has_id-take id (suc n) [] h = refl
has_id-take id (suc n) (r ∷ rs) h = ground (arith, has_id-take id n rs)

pub not_listed :
    (id limit : ℕ) (db : Outbox)
    → waiting id db ≡ false
    → has_id id (list_pending_tx limit db) ≡ false
unfolding list_pending_tx
not_listed id limit db h = has_id-take id limit _ (has_id-filter id db ∙ h)

distinct-filter :
    (db : Outbox) → distinct db ≡ true → distinct (filter (λ r. is_pending r.state) db) ≡ true
distinct-filter [] h = refl
distinct-filter (r ∷ rs) h =
    ground (arith, distinct-filter rs, has_id-filter r.id rs, waiting_absent r.id rs)

distinct-take : (n : ℕ) (db : Outbox) → distinct db ≡ true → distinct (take n db) ≡ true
distinct-take zero db h = refl
distinct-take (suc n) [] h = refl
distinct-take (suc n) (r ∷ rs) h = ground (arith, distinct-take n rs, has_id-take r.id n rs)

pub distinct-list_pending_tx :
    (limit : ℕ) (db : Outbox) → distinct db ≡ true → distinct (list_pending_tx limit db) ≡ true
unfolding list_pending_tx
distinct-list_pending_tx limit db h = distinct-take limit _ (distinct-filter db h)

claim_again :
    (id now : ℕ) (db : Outbox) → waiting id db ≡ false → claim_for_send id now db ≡ (db, false)
unfolding claim_for_send
claim_again id now db h = rw (update_pending-none id (claimed now) (λ r. refl) db h) refl

cancel_again : (id : ℕ) (db : Outbox) → waiting id db ≡ false → cancel_outbox id db ≡ (db, false)
unfolding cancel_outbox
cancel_again id db h = rw (update_pending-none id withdrawn (λ r. refl) db h) refl

-- A row that waits, alone under its id, is won by the next claim and by the next cancellation.
pub claim_wins :
    (id now : ℕ) (db : Outbox)
    → distinct db ≡ true
    → waiting id db ≡ true
    → (claim_for_send id now db).1 ≡ true
unfolding claim_for_send
claim_wins id now db d h = rw (update_pending-one id (claimed now) (λ r. refl) db d h) refl

pub cancel_wins :
    (id : ℕ) (db : Outbox)
    → distinct db ≡ true
    → waiting id db ≡ true
    → (cancel_outbox id db).1 ≡ true
unfolding cancel_outbox
cancel_wins id db d h = rw (update_pending-one id withdrawn (λ r. refl) db d h) refl

-- Once a claim has been tried on a row, whoever won it, a second claim and a cancellation of the
-- row fail and change nothing, and the row is not listed for sending.
pub claim_for_send_once :
    (id now later limit : ℕ) (db : Outbox)
    → (claim_for_send id later (claim_for_send id now db).0 ≡ ((claim_for_send id now db).0, false))
      × (cancel_outbox id (claim_for_send id now db).0 ≡ ((claim_for_send id now db).0, false))
      × (has_id id (list_pending_tx limit (claim_for_send id now db).0) ≡ false)
claim_for_send_once id now later limit db =
    let gone = waiting-claim_for_send id now db in
    (claim_again id later _ gone, cancel_again id _ gone, not_listed id limit _ gone)

-- What the rest of the system may do between two rows: the ids stay distinct, and a row that is in
-- the table and does not wait stays so.
pub record Honest (m : Outbox → Outbox) : Type 0 where
  pub keys : (db : Outbox) → distinct db ≡ true → distinct (m db) ≡ true
  pub closed :
      (i : ℕ) (db : Outbox)
      → has_id i db ≡ true
      → waiting i db ≡ false
      → (has_id i (m db) ≡ true) × (waiting i (m db) ≡ false)

pub Touches-Honest :
    (j : ℕ) (m : Outbox → Outbox)
    → ((db : Outbox) → Touches j db (m db))
    → ((db : Outbox) → waiting j db ≡ false → waiting j (m db) ≡ false)
    → Honest m
Touches-Honest j m touch settle = record {
  keys = λ db h. (touch db).keys ∙ h;
  closed = λ i db known h. (
    (touch db).ids i ∙ known,
    elim (Bool-cases (i == j)) [
      | inl same ↦
          let e : i ≡ j = (==_iff i j).0 same in
          subst (λ k. waiting k (m db) ≡ false) (sym e)
            (settle db (subst (λ k. waiting k db ≡ false) e h))
      | inr other ↦ (touch db).others i (ground arith) ∙ h
    ],
  );
}

pub cancel_outbox-Touches : (id : ℕ) (db : Outbox) → Touches id db (cancel_outbox id db).0
unfolding cancel_outbox
cancel_outbox-Touches id db = update_pending-Touches id withdrawn (λ r. refl) db

pub waiting-cancel_outbox : (id : ℕ) (db : Outbox) → waiting id (cancel_outbox id db).0 ≡ false
unfolding cancel_outbox
waiting-cancel_outbox id db =
    waiting-pending_self id withdrawn (λ r. refl) (λ r. unfold is_pending in refl) db

has_id-fail_interrupted : (i : ℕ) (db : Outbox) → has_id i (fail_interrupted_sends db) ≡ has_id i db
unfolding fail_interrupted_sends
has_id-fail_interrupted i [] = refl
has_id-fail_interrupted i (r ∷ rs) = ground (arith, has_id-fail_interrupted i rs)

waiting-fail_interrupted :
    (i : ℕ) (db : Outbox) → waiting i (fail_interrupted_sends db) ≡ waiting i db
unfolding fail_interrupted_sends is_pending
waiting-fail_interrupted i [] = refl
waiting-fail_interrupted i (r ∷ rs) = ground (arith, waiting-fail_interrupted i rs)

distinct-fail_interrupted : (db : Outbox) → distinct (fail_interrupted_sends db) ≡ distinct db
unfolding fail_interrupted_sends
distinct-fail_interrupted [] = refl
distinct-fail_interrupted (r ∷ rs) =
    ground (arith, has_id-fail_interrupted r.id rs, distinct-fail_interrupted rs)

has_id-enqueue :
    (i id : ℕ) (x : EnqueueInput) (db : Outbox)
    → has_id i (enqueue_tx id x db) ≡ (has_id i db || id == i)
unfolding enqueue_tx
has_id-enqueue i id x [] = ground arith
has_id-enqueue i id x (r ∷ rs) = ground (arith, has_id-enqueue i id x rs)

waiting-enqueue :
    (i id : ℕ) (x : EnqueueInput) (db : Outbox)
    → waiting i (enqueue_tx id x db) ≡ (waiting i db || id == i)
unfolding enqueue_tx is_pending
waiting-enqueue i id x [] = ground arith
waiting-enqueue i id x (r ∷ rs) = ground (arith, waiting-enqueue i id x rs)

distinct-enqueue :
    (id : ℕ) (x : EnqueueInput) (db : Outbox)
    → has_id id db ≡ false
    → distinct db ≡ true
    → distinct (enqueue_tx id x db) ≡ true
unfolding enqueue_tx
distinct-enqueue id x [] new h = ground arith
distinct-enqueue id x (r ∷ rs) new h =
    ground (arith, distinct-enqueue id x rs, has_id-enqueue r.id id x rs)

or_true : (a b : Bool) → a ≡ true → (a || b) ≡ true
or_true a b h = ground arith

or_false : (a b : Bool) → a ≡ false → b ≡ false → (a || b) ≡ false
or_false a b h k = ground arith

-- A cancellation, a claim by another worker, a restart that fails interrupted sends and an insert
-- under an unused id are all honest: none puts a settled row back into the queue.
pub statements-Honest :
    (id now : ℕ) (fresh : Outbox → ℕ) (x : EnqueueInput)
    → ((db : Outbox) → has_id (fresh db) db ≡ false)
    → Honest (λ db. (cancel_outbox id db).0)
      × Honest (λ db. (claim_for_send id now db).0)
      × Honest fail_interrupted_sends
      × Honest (λ db. enqueue_tx (fresh db) x db)
statements-Honest id now fresh x unused = (
  Touches-Honest id _ (cancel_outbox-Touches id) (λ db h. waiting-cancel_outbox id db),
  Touches-Honest id _ (claim_for_send-Touches id now) (λ db h. waiting-claim_for_send id now db),
  record {
    keys = λ db h. distinct-fail_interrupted db ∙ h;
    closed =
        λ i db known h. (has_id-fail_interrupted i db ∙ known, waiting-fail_interrupted i db ∙ h);
  },
  record {
    keys = λ db h. distinct-enqueue (fresh db) x db (unused db) h;
    closed = λ i db known h.
        let new : fresh db == i ≡ false = other i db known in
        (
          has_id-enqueue i (fresh db) x db ∙ or_true _ _ known,
          waiting-enqueue i (fresh db) x db ∙ or_false _ _ h new,
        );
  },
)
  where
    other : (i : ℕ) (db : Outbox) → has_id i db ≡ true → (fresh db == i) ≡ false
    other i db known = elim (Bool-cases (fresh db == i)) [
      | inr e ↦ e
      | inl e ↦
          let same : fresh db ≡ i = (==_iff _ _).0 e in
          let clash : has_id i db ≡ false = subst (λ k. has_id k db ≡ false) same (unused db) in
          absurd (cc)
    ]
