-- ===== src/Tx/Worker/Loop.antt =====
-- What one round of the loop in src/worker/tx.ts does to the outbox and to the log of publishes.
use hop_watch.Prelude.{
  ℕ, String, ◌≡◌, refl, ◌∙◌, ◌≢◌, ◌⊎◌, inl, inr, true, false, not, ◌&&◌, Option, List, ◌∷◌, arith,
  if-cases, is_some,
}
use hop_watch.Tx.State.{rate_allowed, channel_util_ok, held, failed}
use hop_watch.Tx.Outbox.{OutboxRow, Outbox, claim_for_send}
use hop_watch.Tx.Outbox.Statements.{
  Honest, claim_for_send-Touches, waiting-claim_for_send, has_id-claim_for_send,
}
use hop_watch.Tx.Outbox.Touched.{has_id, waiting, distinct, Touches, Touches-refl, Touches-trans}
use hop_watch.Tx.Worker.Row.{due, needs_target, run_row}
use hop_watch.Tx.Worker.Shapes.{
  TxConfig, Broker, Encoder, Around, Published, Tick, Verdict, done, halt,
}
use hop_watch.Tx.Worker.Sent.{set_state-Touches, Round, transmit-Round, IsSafe}

-- What a round has settled: the row is in the table and waits no longer.
abbrev pub Closed : ℕ → Outbox → Type 0
Closed id db = (has_id id db ≡ true) × (waiting id db ≡ false)

abbrev pub tick_of : Verdict → Tick
tick_of (done t) = t
tick_of (halt t) = t

-- What a round does, the writes of others before it included.
pub record Outcome (cfg : TxConfig) (row : OutboxRow) (t t' : Tick) : Type 0 where
  pub keys : distinct t.db ≡ true → distinct t'.db ≡ true
  pub others : (i : ℕ) → i ≢ row.id → Closed i t.db → Closed i t'.db
  pub grows :
      (t'.published ≡ t.published)
      ⊎ ((p : Published) × (t'.published ≡ p ∷ t.published)
          × IsSafe cfg row p
          × Closed row.id t'.db)

module _ (cfg : TxConfig) (row : OutboxRow) (before : Tick) (m : Outbox → Outbox)
    (h : Honest m) where
  Touches-Outcome :
      (t' : Tick)
      → Touches row.id (m before.db) t'.db
      → (t'.published ≡ before.published)
        ⊎ ((p : Published) × (t'.published ≡ p ∷ before.published)
            × IsSafe cfg row p
            × Closed row.id t'.db)
      → Outcome cfg row before t'
  Touches-Outcome t' touch g = record {
    keys = λ d. touch.keys ∙ h.keys before.db d;
    others = λ i ne c.
        let c' = h.closed i before.db c.0 c.1 in (touch.ids i ∙ c'.0, touch.others i ne ∙ c'.1);
    grows = g;
  }

  claimed-Outcome :
      (now : ℕ) (t' : Tick)
      → (claim_for_send row.id now (m before.db)).1 ≡ true
      → Round cfg row (record before { db = (claim_for_send row.id now (m before.db)).0 }) t'
      → Outcome cfg row before t'
  claimed-Outcome now t' won (touch, g) =
      Touches-Outcome t' (Touches-trans row.id first touch) (elim g [
        | inl same ↦ inl same
        | inr (p, e, safe, shut) ↦ inr (
          p,
          e,
          safe,
          (
            touch.ids row.id ∙ first.ids row.id ∙ has_id-claim_for_send row.id now _ won,
            shut (waiting-claim_for_send row.id now _),
          ),
        )
      ])
    where
      first : Touches row.id (m before.db) (claim_for_send row.id now (m before.db)).0
      first = claim_for_send-Touches row.id now (m before.db)

pub run_row-Outcome :
    (enc : Encoder) (cfg : TxConfig) (keys : List (String × String)) (brokers : List Broker)
    (util : Option ℕ) (env : Around) (row : OutboxRow) (t : Tick)
    → Honest env.meanwhile
    → Outcome cfg row t (tick_of (run_row enc cfg keys brokers util env row t))
unfolding run_row
run_row-Outcome enc cfg keys brokers util env row t h =
    if-cases P (not (due row env.at_backoff)) (λ _. idle)
      (λ _.
        if-cases P (not (rate_allowed t.recent env.at_rate cfg.per_minute cfg.per_hour)) (λ _. idle)
          (λ _.
            if-cases P (needs_target row.kind && is_some row.to_node && env.muted)
              (λ _.
                Touches-Outcome cfg row t env.meanwhile h _
                  (set_state-Touches row.id failed _ _ (λ r. refl)) (inl refl))
              (λ _.
                if-cases P (not (channel_util_ok util cfg.max_channel_util))
                  (λ _.
                    Touches-Outcome cfg row t env.meanwhile h _
                      (set_state-Touches row.id held _ _ (λ r. refl)) (inl refl))
                  (λ _.
                    if-cases P (not (claim_for_send row.id env.at_claim (env.meanwhile t.db)).1)
                      (λ _.
                        Touches-Outcome cfg row t env.meanwhile h _
                          (claim_for_send-Touches row.id env.at_claim _) (inl refl))
                      (λ won.
                        claimed-Outcome cfg row t env.meanwhile h env.at_claim _ (ground arith)
                          (transmit-Round enc cfg keys brokers env row _))))))
  where
    P : Verdict → Type 0
    P v = Outcome cfg row t (tick_of v)

    idle : Outcome cfg row t (record t { db = env.meanwhile t.db })
    idle = Touches-Outcome cfg row t env.meanwhile h _ (Touches-refl row.id _) (inl refl)
