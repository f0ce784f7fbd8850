-- ===== src/Tx/Worker/Hold.antt =====
-- The hold of src/worker/tx.ts on a busy channel, which writes a row before it has claimed it.
use hop_watch.Prelude.{
  ℕ, String, ◌≡◌, refl, sym, subst, ◌∙◌, true, false, ◌&&◌, Option, some, List, [], ◌∷◌, arith,
  is_some,
}
use hop_watch.Tx.Worker.Sent.{set_state-Touches}
use hop_watch.Tx.Outbox.Statements.{
  cancel_outbox-Touches, cancel_wins, waiting-cancel_outbox, claim_wins,
}
use hop_watch.Tx.State.{held, rate_allowed, channel_util_ok}
use hop_watch.Tx.Outbox.{
  OutboxRow, util_over, Outbox, is_pending, update_outbox, set_state, cancel_outbox, claim_for_send,
}
use hop_watch.Tx.Outbox.Touched.{has_id, waiting, distinct}
use hop_watch.Tx.Worker.Row.{due, needs_target, run_row}
use hop_watch.Tx.Worker.Shapes.{TxConfig, Broker, Encoder, Around, Tick}
use hop_watch.Tx.Worker.Loop.{tick_of}

has_waiting : (id : ℕ) (db : Outbox) → waiting id db ≡ true → has_id id db ≡ true
has_waiting id [] h = absurd (cc)
has_waiting id (r ∷ rs) h = ground (arith, has_waiting id rs)

waiting-hold :
    (id : ℕ) (extra : OutboxRow → OutboxRow)
    → ((r : OutboxRow) → (extra r).id ≡ r.id)
    → (db : Outbox) → has_id id db ≡ true
    → waiting id (update_outbox id (λ r. record (extra r) { state = held }) db) ≡ true
unfolding update_outbox is_pending
waiting-hold id extra keep [] h = h
waiting-hold id extra keep (r ∷ rs) h = ground (arith, keep r, waiting-hold id extra keep rs)

held-db :
    (enc : Encoder) (cfg : TxConfig) (keys : List (String × String)) (brokers : List Broker)
    (util : Option ℕ) (env : Around) (row : OutboxRow) (t : Tick)
    → due row env.at_backoff ≡ true
    → rate_allowed t.recent env.at_rate cfg.per_minute cfg.per_hour ≡ true
    → (needs_target row.kind && is_some row.to_node && env.muted) ≡ false
    → channel_util_ok util cfg.max_channel_util ≡ false
    → (tick_of (run_row enc cfg keys brokers util env row t)).db
      ≡ set_state row.id held (λ r. record r { error = some util_over }) (env.meanwhile t.db)
unfolding run_row
held-db enc cfg keys brokers util env row t ready free heard busy =
    rw (ready, free, heard, busy) refl

-- The ids of the outbox are distinct, a row waits to be sent, and it is due when the worker comes
-- to it. The rate limit admits it, its target is not muted and the channel is too busy. It is
-- cancelled after the worker has read it: the cancellation reports success and the row waits no
-- longer, and yet after the worker's round it waits again and is won by the next claim.
pub cancelled_row_revives :
    (enc : Encoder) (cfg : TxConfig) (keys : List (String × String)) (brokers : List Broker)
    (util : Option ℕ) (env : Around) (row : OutboxRow) (t : Tick) (later : ℕ)
    → due row env.at_backoff ≡ true
    → rate_allowed t.recent env.at_rate cfg.per_minute cfg.per_hour ≡ true
    → (needs_target row.kind && is_some row.to_node && env.muted) ≡ false
    → channel_util_ok util cfg.max_channel_util ≡ false
    → distinct t.db ≡ true
    → waiting row.id t.db ≡ true
    → let env' : Around = record env { meanwhile = λ db. (cancel_outbox row.id db).0 } in
      let db' = (tick_of (run_row enc cfg keys brokers util env' row t)).db in
      ((cancel_outbox row.id t.db).1 ≡ true)
      × (waiting row.id (cancel_outbox row.id t.db).0 ≡ false)
      × (waiting row.id db' ≡ true)
      × ((claim_for_send row.id later db').1 ≡ true)
cancelled_row_revives enc cfg keys brokers util env row t later ready free heard busy keyed waits =
    (
      cancel_wins row.id t.db keyed waits,
      waiting-cancel_outbox row.id t.db,
      again,
      claim_wins row.id later _ still_keyed again,
    )
  where
    after : Around
    after = record env { meanwhile = λ db. (cancel_outbox row.id db).0 }

    written :
        (tick_of (run_row enc cfg keys brokers util after row t)).db
        ≡ set_state row.id held
            (λ r. record r { error = some util_over })
            (cancel_outbox row.id t.db).0
    written = held-db enc cfg keys brokers util after row t ready free heard busy

    there : has_id row.id (cancel_outbox row.id t.db).0 ≡ true
    there = (cancel_outbox-Touches row.id t.db).ids row.id ∙ has_waiting row.id t.db waits

    again : waiting row.id (tick_of (run_row enc cfg keys brokers util after row t)).db ≡ true
    again =
        subst (λ db. waiting row.id db ≡ true) (sym written)
          (unfold set_state in
            waiting-hold row.id (λ r. record r { error = some util_over }) (λ r. refl) _ there)

    still_keyed : distinct (tick_of (run_row enc cfg keys brokers util after row t)).db ≡ true
    still_keyed =
        subst (λ db. distinct db ≡ true) (sym written)
          ((set_state-Touches row.id held (λ r. record r { error = some util_over }) _
              (λ r. refl)).keys
            ∙ (cancel_outbox-Touches row.id t.db).keys
            ∙ keyed)
