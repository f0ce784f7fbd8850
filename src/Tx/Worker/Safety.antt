-- ===== src/Tx/Worker/Safety.antt =====
-- What src/worker/tx.ts has seen to before anything goes out.
use hop_watch.Prelude.{
  ◌≡◌, refl, sym, ap, ◌∙◌, ◌≢◌, inl, inr, true, Option, none, some, List, [], ◌∷◌, ◌++◌, arith,
  if◌then◌else◌, all, All, All-append,
}
use hop_watch.Tx.Outbox.{OutboxRow, Outbox, list_pending_tx, recent_sent_at}
use mathlib.Core.List.{append_assoc, Memᴰ}
use mathlib.Core.List.Memᴰ.{head, tail}
use hop_watch.Tx.Worker.{
  Gate, gate, TickInput, page, run_rows, run_tx_outbox, reconcile_confirmations,
}
use hop_watch.Tx.Worker.Row.{run_row}
use hop_watch.Tx.Worker.Shapes.{TxConfig, Encoder, Published, Tick, Verdict, done, halt}
use hop_watch.Tx.Worker.Loop.{Outcome, tick_of, run_row-Outcome}
use hop_watch.Tx.Worker.Sent.{IsSafe}
use hop_watch.Tx.Worker.Settled.{HonestInput}

-- What the configuration allows, and a row of those given that the publish is safe for.
pub record Allowed (cfg : TxConfig) (rows : List OutboxRow) (p : Published) : Type 0 where
  pub enabled : cfg.enabled ≡ true
  pub armed : cfg.armed ≡ true
  pub identified : cfg.from_node ≢ 0
  pub row : OutboxRow
  pub member : Memᴰ row rows
  pub safe : IsSafe cfg row p

-- The outbox when the tick reads its rows, and those rows.
abbrev pub read_from : TickInput → Tick → Outbox
read_from i t =
    if i.config.enabled then reconcile_confirmations i.evidence i.recent_enough t.db else t.db

abbrev pub read_rows : TickInput → Tick → List OutboxRow
read_rows i t = list_pending_tx page (read_from i t)

-- The log grows by publishes that have the property.
abbrev pub Adds : (Published → Type 0) → Tick → Tick → Type 0
Adds P t t' = (ps : List Published) × (t'.published ≡ ps ++ t.published) × All P ps

abbrev SafeOne : TxConfig → List OutboxRow → Published → Type 0
SafeOne cfg rows p = (row : OutboxRow) × Memᴰ row rows × IsSafe cfg row p

Outcome-Adds :
    (cfg : TxConfig) (rows : List OutboxRow) (row : OutboxRow) (t t' : Tick)
    → Memᴰ row rows
    → Outcome cfg row t t'
    → Adds (SafeOne cfg rows) t t'
Outcome-Adds cfg rows row t t' m out = elim out.grows [
  | inl same ↦ ([], same, tt)
  | inr (p, e, safe, shut) ↦ (p ∷ [], e, ((row, m, safe), tt))
]

Adds-trans : (P : Published → Type 0) (t u v : Tick) → Adds P t u → Adds P u v → Adds P t v
Adds-trans P t u v (ps, e, h) (qs, f, k) =
    (qs ++ ps, f ∙ ap (qs ++◌) e ∙ sym (append_assoc qs ps t.published), All-append P qs ps k h)

run_rows-Adds :
    (enc : Encoder) (i : TickInput) (all : List OutboxRow)
    → HonestInput i
    → (rs : List OutboxRow) (t : Tick) → ((r : OutboxRow) → Memᴰ r rs → Memᴰ r all)
    → Adds (SafeOne i.config all) t (run_rows enc i rs t)
unfolding run_rows
run_rows-Adds enc i all honest [] t within = ([], refl, tt)
run_rows-Adds enc i all honest (r ∷ rs) t within =
    step (run_row enc i.config i.keys i.brokers i.util (i.around r.id) r t)
      (Outcome-Adds i.config all r t _ (within r (head refl))
        (run_row-Outcome enc i.config i.keys i.brokers i.util (i.around r.id) r t (honest r.id)))
      (λ t'. run_rows-Adds enc i all honest rs t' (λ q m. within q (tail m)))
  where
    step :
        (v : Verdict)
        → Adds (SafeOne i.config all) t (tick_of v)
        → ((t' : Tick) → Adds (SafeOne i.config all) t' (run_rows enc i rs t'))
        → Adds (SafeOne i.config all) t (elim v [ done t' ↦ run_rows enc i rs t' | halt t' ↦ t' ])
    step (done t') a on = Adds-trans (SafeOne i.config all) t t' (run_rows enc i rs t') a (on t')
    step (halt t') a on = a

gate_open :
    (cfg : TxConfig)
    → gate cfg ≡ none
    → (cfg.enabled ≡ true) × (cfg.armed ≡ true) × (cfg.from_node ≢ 0)
unfolding gate
gate_open cfg h = (ground arith, ground arith, λ z. ground arith)

-- Whatever a tick publishes, the worker is enabled and armed, has a sending node and is not in dry
-- run, and each publish is safe for one of the rows that the tick read from the outbox: it is
-- recorded under that row's id, its hop limit keeps to the maximum, over MQTT it has a key and a
-- topic root, a probe goes through the station node, and it asks for the packet id that the row had
-- when it was read. What other processes write meanwhile is assumed to be honest.
pub run_tx_outbox_safe :
    (enc : Encoder) (i : TickInput) (t : Tick)
    → HonestInput i
    → Adds (Allowed i.config (read_rows i t)) t (run_tx_outbox enc i t)
unfolding run_tx_outbox
run_tx_outbox_safe enc i t honest = at (gate i.config) refl
  where
    allowed :
        gate i.config ≡ none
        → (ps : List Published) → All (SafeOne i.config (read_rows i t)) ps
        → All (Allowed i.config (read_rows i t)) ps
    allowed is_open [] h = tt
    allowed is_open (p ∷ ps) ((row, m, safe), hs) =
        let (e, a, n) = gate_open i.config is_open in
        (
          record { enabled = e; armed = a; identified = n; row = row; member = m; safe = safe },
          allowed is_open ps hs,
        )

    at :
        (g : Option Gate)
        → gate i.config ≡ g
        → Adds (Allowed i.config (read_rows i t)) t (elim g [
          | some g ↦ record t { db = read_from i t; sent = 0 }
          | none ↦ run_rows enc i (read_rows i t) (record t {
            db = read_from i t;
            recent = recent_sent_at i.at_recent (read_from i t);
            sent = 0;
          })
        ])
    at (some g) e = ([], refl, tt)
    at none e =
        let (ps, f, h) =
          run_rows-Adds enc i (read_rows i t) honest (read_rows i t)
            (record t {
              db = read_from i t;
              recent = recent_sent_at i.at_recent (read_from i t);
              sent = 0;
            })
            (λ r m. m) in
        (ps, f, allowed e ps h)
