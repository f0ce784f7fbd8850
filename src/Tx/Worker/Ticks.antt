-- ===== src/Tx/Worker/Ticks.antt =====
-- What runs of src/worker/tx.ts, interleaved with the writes of other processes, publish.
use hop_watch.Prelude.{
  ℕ, ◌≤◌, String, ◌≡◌, refl, sym, subst, Bool, true, false, ◌&&◌, Option, none, some, List, [], ◌∷◌,
  arith, if◌then◌else◌, if-cases, is_some, All,
}
use hop_watch.Tx.State.{TxState, failed, promote, ConfirmationSignal}
use mathlib.Core.Bool.{false≢true}
use hop_watch.Tx.State.Promote.{progress, promote_never_lowers}
use hop_watch.Tx.Outbox.{
  nak, recent_sent_at, OutboxRow, Outbox, is_pending, set_state, list_pending_tx,
}
use hop_watch.Tx.Outbox.Statements.{Honest, Touches-Honest, not_listed, distinct-list_pending_tx}
use hop_watch.Tx.Outbox.Touched.{distinct, KeepsId, waiting-update_self}
use hop_watch.Tx.Worker.{
  is_nak, is_failed, is_ack, nak_name, same_state, Gate, gate, Evidence, Answer, is_watched,
  watchable, reconcile_row, reconcile_rows, reconcile_confirmations, TickInput, page, run_rows,
  run_tx_outbox,
}
use hop_watch.Tx.Worker.Shapes.{Encoder, Tick}
use hop_watch.Tx.Worker.Sent.{set_state-Touches}
use hop_watch.Tx.Worker.Settled.{Settled, published_id, once, HonestInput, run_rows-Settled}

Honest-id : Honest (λ db. db)
Honest-id = record { keys = λ db h. h; closed = λ i db a b. (a, b) }

Honest-then : (m n : Outbox → Outbox) → Honest m → Honest n → Honest (λ db. n (m db))
Honest-then m n h k = record {
  keys = λ db d. k.keys (m db) (h.keys db d);
  closed = λ i db a b. let c = h.closed i db a b in k.closed i (m db) c.0 c.1;
}

Honest-if :
    (b : Bool) (m n : Outbox → Outbox)
    → Honest m
    → Honest n
    → Honest (λ db. if b then m db else n db)
Honest-if true m n h k = h
Honest-if false m n h k = k

set_state-Honest :
    (id : ℕ) (s : TxState) (extra : OutboxRow → OutboxRow)
    → KeepsId extra
    → is_pending s ≡ false
    → Honest (set_state id s extra)
unfolding set_state
set_state-Honest id s extra keep out =
    Touches-Honest id (set_state id s extra) (λ db. set_state-Touches id s extra db keep)
      (λ db h. waiting-update_self id (λ r. record (extra r) { state = s }) keep (λ r. out) db)

promote_pending :
    (s : TxState) (g : ConfirmationSignal) → is_watched s ≡ true → is_pending (promote s g) ≡ false
unfolding progress is_watched is_pending
promote_pending s g h = away (promote s g) (promote_never_lowers s g)
  where
    away : (s' : TxState) → progress s ≤ progress s' → is_pending s' ≡ false
    away s' le = ground arith

reconcile_row-Honest :
    (ev : Evidence) (row : OutboxRow) → is_watched row.state ≡ true → Honest (reconcile_row ev row)
unfolding reconcile_row
reconcile_row-Honest ev row h = at row.packet_id
  where
    moved : (g : ConfirmationSignal) → Honest (set_state row.id (promote row.state g) (λ r. r))
    moved g = set_state-Honest row.id _ (λ r. r) (λ r. refl) (promote_pending row.state g h)

    lost :
        (e : Option String)
        → Honest (set_state row.id failed (λ r. record r { error = some (nak e) }))
    lost e = set_state-Honest row.id failed _ (λ r. refl) (unfold is_pending in refl)

    at :
        (o : Option ℕ)
        → Honest (λ db. elim o [
          | none ↦ db
          | some p ↦
              let answer : Option Answer = if row.want_ack then ev.routing_answer p else none in
              let signal : ConfirmationSignal = record {
                gateway_count = ev.heard_by p row.from_node;
                routing_ack = is_ack answer;
              } in
              if is_nak answer
              then if is_failed row.state
                then db
                else set_state row.id failed
                    (λ r. record r { error = some (nak (nak_name answer)) })
                    db
              else if same_state (promote row.state signal) row.state
              then db
              else set_state row.id (promote row.state signal) (λ r. r) db
        ])
    at none = Honest-id
    at (some p) =
        Honest-if (is_nak _) (λ db. if is_failed row.state then db else _) _
          (Honest-if (is_failed row.state) (λ db. db) _ Honest-id (lost _))
          (Honest-if (same_state _ row.state) (λ db. db) _ Honest-id (moved _))

reconcile_rows-Honest :
    (ev : Evidence) (rows : List OutboxRow)
    → All (λ r. is_watched r.state ≡ true) rows
    → Honest (reconcile_rows ev rows)
unfolding reconcile_rows
reconcile_rows-Honest ev [] h = Honest-id
reconcile_rows-Honest ev (r ∷ rs) (w, ws) =
    Honest-then (reconcile_row ev r) (reconcile_rows ev rs) (reconcile_row-Honest ev r w)
      (reconcile_rows-Honest ev rs ws)

watchable_watched :
    (recent_enough : OutboxRow → Bool) (db : Outbox)
    → All (λ r. is_watched r.state ≡ true) (watchable recent_enough db)
unfolding watchable
watchable_watched recent_enough [] = tt
watchable_watched recent_enough (r ∷ rs) =
    if-cases (All (λ r. is_watched r.state ≡ true))
      (is_watched r.state && recent_enough r && is_some r.packet_id)
      (λ h. (ground arith, watchable_watched recent_enough rs))
      (λ h. watchable_watched recent_enough rs)

reconcile_confirmations-Honest :
    (ev : Evidence) (recent_enough : OutboxRow → Bool)
    → Honest (reconcile_confirmations ev recent_enough)
unfolding reconcile_confirmations
reconcile_confirmations-Honest ev recent_enough = record {
  keys = λ db. (honest db).keys db;
  closed = λ i db. (honest db).closed i db;
}
  where
    honest : (db : Outbox) → Honest (reconcile_rows ev (watchable recent_enough db))
    honest db = reconcile_rows-Honest ev _ (watchable_watched recent_enough db)

Settled-write :
    (m : Outbox → Outbox) → Honest m → (t : Tick) → Settled t → Settled (record t { db = m t.db })
Settled-write m h t s = record {
  keys = h.keys t.db s.keys;
  closed = λ i p. let c = s.closed i p in h.closed i t.db c.0 c.1;
  single = s.single;
}

run_tx_outbox-Settled :
    (enc : Encoder) (i : TickInput)
    → HonestInput i
    → (t : Tick) → Settled t
    → Settled (run_tx_outbox enc i t)
unfolding run_tx_outbox
run_tx_outbox-Settled enc i honest t s = at (gate i.config)
  where
    before : Outbox
    before =
        if i.config.enabled then reconcile_confirmations i.evidence i.recent_enough t.db else t.db

    ready : Settled (record t { db = before })
    ready =
        Settled-write
          (λ db.
            if i.config.enabled then reconcile_confirmations i.evidence i.recent_enough db else db)
          (Honest-if i.config.enabled _ (λ db. db)
            (reconcile_confirmations-Honest i.evidence i.recent_enough) Honest-id)
          t s

    at :
        (g : Option Gate)
        → Settled (elim g [
          | some g ↦ record t { db = before; sent = 0 }
          | none ↦
              run_rows enc i
                (list_pending_tx page before)
                (record t { db = before; recent = recent_sent_at i.at_recent before; sent = 0 })
        ])
    at (some g) = record { keys = ready.keys; closed = ready.closed; single = ready.single }
    at none =
        run_rows-Settled enc i honest _ _ (distinct-list_pending_tx page before ready.keys)
          (λ k p. not_listed k page before (ready.closed k p).1)
          (record { keys = ready.keys; closed = ready.closed; single = ready.single })

-- A run of the worker: ticks, and honest writes of the rest of the system between them.
pub data Run (enc : Encoder) : Tick → Tick → Type 1 where
  stop : (t : Tick) → Run enc t t
  tick :
      {t u : Tick} (i : TickInput) → HonestInput i → Run enc (run_tx_outbox enc i t) u → Run enc t u
  write :
      {t u : Tick} (m : Outbox → Outbox)
      → Honest m
      → Run enc (record t { db = m t.db }) u
      → Run enc t u

Run-Settled : (enc : Encoder) {t u : Tick} → Run enc t u → Settled t → Settled u
Run-Settled enc (stop t) s = s
Run-Settled enc (tick {t} i h r) s = Run-Settled enc r (run_tx_outbox-Settled enc i h t s)
Run-Settled enc (write {t} m h r) s = Run-Settled enc r (Settled-write m h t s)

-- From an outbox whose ids are distinct and an empty log, no run of the worker, however its ticks
-- interleave with honest writes of other processes, publishes the same row twice.
pub Run-once :
    (enc : Encoder) (t u : Tick)
    → distinct t.db ≡ true
    → t.published ≡ []
    → Run enc t u
    → once u.published ≡ true
Run-once enc t u d none_yet r = (Run-Settled enc r start).single
  where
    start : Settled t
    start = record {
      keys = d;
      closed = λ i p. absurd (false≢true (subst (λ ps. published_id i ps ≡ true) none_yet p));
      single = subst (λ ps. once ps ≡ true) (sym none_yet) refl;
    }
