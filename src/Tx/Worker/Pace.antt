-- ===== src/Tx/Worker/Pace.antt =====
-- The rate limit and the gates of a tick, src/worker/tx.ts.
use hop_watch.Prelude.{
  ℕ, suc, ◌+◌, ◌-◌, ◌≤◌, ◌<◌, String, ◌≡◌, refl, ◌⊎◌, inl, inr, Bool, true, false, not, ◌&&◌,
  Option, none, some, List, [], ◌∷◌, ◌++◌, arith, str_eq, ltb, if◌then◌else◌, if-cases, is_some,
  length,
}
use hop_watch.Tx.State.{rate_allowed, channel_util_ok, minute_ms, sent_within}
use hop_watch.Tx.Outbox.{
  OutboxRow, Outbox, encode_failed, no_node_channel, claim_for_send, list_pending_tx,
  recent_sent_at,
}
use hop_watch.Tx.Worker.{
  Gate, gate, TickInput, page, run_rows, run_tx_outbox, reconcile_confirmations,
}
use hop_watch.Tx.Worker.Row.{
  fail, due, needs_target, key_of, text_or_empty, topic_root_for, using_node, request_of, finish,
  encode, transmit, run_row,
}
use hop_watch.Tx.Worker.Shapes.{
  TxConfig, Broker, TxRequest, Encoded, Encoder, Around, Tick, Verdict, done, halt,
}
use hop_watch.Tx.Worker.Loop.{tick_of}

-- A round leaves the send times and the log as they are, or adds one send time and at most one publish.
abbrev Paced : Around → Tick → Tick → Type 0
Paced env t t' =
    ((t'.recent ≡ t.recent) × (t'.published ≡ t.published))
    ⊎ ((t'.recent ≡ t.recent ++ env.at_push ∷ [])
        × (length t'.published ≤ suc (length t.published)))

finish-Paced :
    (cfg : TxConfig) (env : Around) (row : OutboxRow) (on_node : Bool) (req : TxRequest)
    (e : Encoded) (t : Tick)
    → Paced env t (finish cfg env row on_node req e t)
unfolding finish
finish-Paced cfg env row on_node req e t =
    if-cases (Paced env t) cfg.dry_run (λ _. inr (refl, omega arith))
      (λ _.
        if-cases (Paced env t) (not env.publish_ok) (λ _. inl (refl, refl))
          (λ _. inr (refl, omega arith)))

encode-Paced :
    (enc : Encoder) (cfg : TxConfig) (env : Around) (row : OutboxRow) (on_node : Bool)
    (req : TxRequest) (t : Tick)
    → Paced env t (encode enc cfg env row on_node req t)
unfolding encode
encode-Paced enc cfg env row on_node req t =
    at (if on_node then enc.to_radio env.random req else enc.to_mqtt env.random req)
  where
    at :
        (o : Option Encoded)
        → Paced env t (elim o [
          | none ↦ record t { db = fail row encode_failed env.at_fail t.db }
          | some e ↦ finish cfg env row on_node req e t
        ])
    at none = inl (refl, refl)
    at (some e) = finish-Paced cfg env row on_node req e t

transmit-Paced :
    (enc : Encoder) (cfg : TxConfig) (keys : List (String × String)) (brokers : List Broker)
    (env : Around) (row : OutboxRow) (t : Tick)
    → Paced env t (transmit enc cfg keys brokers env row t)
unfolding transmit
transmit-Paced enc cfg keys brokers env row t =
    if-cases (Paced env t) (using_node cfg row) (λ _. by_radio env.channel_index)
      (λ _.
        if-cases (Paced env t) (str_eq key "") (λ _. inl (refl, refl))
          (λ _.
            if-cases (Paced env t) (str_eq (topic_root_for brokers row.broker_id cfg.broker_id) "")
              (λ _. inl (refl, refl)) (λ _. encode-Paced enc cfg env row false _ t)))
  where
    key : String
    key = key_of (text_or_empty row.channel_id) keys

    by_radio :
        (o : Option ℕ)
        → Paced env t (elim o [
          | none ↦ record t { db = fail row no_node_channel env.at_fail t.db }
          | some index ↦ encode enc cfg env row true (request_of cfg row index key "") t
        ])
    by_radio none = inl (refl, refl)
    by_radio (some index) = encode-Paced enc cfg env row true _ t

-- A round that adds a send time has passed the rate limit.
abbrev Admitted : TxConfig → Around → Tick → Tick → Type 0
Admitted cfg env t t' =
    ((t'.recent ≡ t.recent) × (t'.published ≡ t.published))
    ⊎ ((t'.recent ≡ t.recent ++ env.at_push ∷ [])
        × (length t'.published ≤ suc (length t.published))
        × (rate_allowed t.recent env.at_rate cfg.per_minute cfg.per_hour ≡ true))

run_row-Admitted :
    (enc : Encoder) (cfg : TxConfig) (keys : List (String × String)) (brokers : List Broker)
    (util : Option ℕ) (env : Around) (row : OutboxRow) (t : Tick)
    → Admitted cfg env t (tick_of (run_row enc cfg keys brokers util env row t))
unfolding run_row
run_row-Admitted enc cfg keys brokers util env row t =
    if-cases P (not (due row env.at_backoff)) (λ _. inl (refl, refl))
      (λ _.
        if-cases P (not (rate_allowed t.recent env.at_rate cfg.per_minute cfg.per_hour))
          (λ _. inl (refl, refl))
          (λ free.
            if-cases P (needs_target row.kind && is_some row.to_node && env.muted)
              (λ _. inl (refl, refl))
              (λ _.
                if-cases P (not (channel_util_ok util cfg.max_channel_util)) (λ _. inl (refl, refl))
                  (λ _.
                    if-cases P (not (claim_for_send row.id env.at_claim (env.meanwhile t.db)).1)
                      (λ _. inl (refl, refl)) (λ _. sent free _)))))
  where
    P : Verdict → Type 0
    P v = Admitted cfg env t (tick_of v)

    admit :
        (t' : Tick)
        → not (rate_allowed t.recent env.at_rate cfg.per_minute cfg.per_hour) ≡ false
        → ((t'.recent ≡ t.recent) × (t'.published ≡ t.published))
          ⊎ ((t'.recent ≡ t.recent ++ env.at_push ∷ [])
              × (length t'.published ≤ suc (length t.published)))
        → Admitted cfg env t t'
    admit t' free (inl same) = inl same
    admit t' free (inr (a, b)) = inr (a, b, ground arith)

    sent :
        not (rate_allowed t.recent env.at_rate cfg.per_minute cfg.per_hour) ≡ false
        → (db : Outbox)
        → Admitted cfg env t (transmit enc cfg keys brokers env row (record t { db = db }))
    sent free db =
        admit (transmit enc cfg keys brokers env row (record t { db = db })) free
          (transmit-Paced enc cfg keys brokers env row (record t { db = db }))

-- All the clock readings of a tick lie within one minute.
abbrev pub Brief : TickInput → Type 0
Brief i = (j k : ℕ) → (i.around j).at_rate - (i.around k).at_push < minute_ms

-- The send times that the tick itself added are those of the last `k` entries.
record Spent (i : TickInput) (start k : ℕ) (t : Tick) : Type 0 where
  counted : (j : ℕ) → k ≤ sent_within minute_ms (i.around j).at_rate t.recent
  within : k ≤ i.config.per_minute
  log : length t.published ≤ start + k

sent_within-snoc :
    (w now x : ℕ) (ts : List ℕ)
    → now - x < w
    → sent_within w now (ts ++ x ∷ []) ≡ suc (sent_within w now ts)
unfolding sent_within
sent_within-snoc w now x [] h = ground arith
sent_within-snoc w now x (t ∷ ts) h = ground (arith, sent_within-snoc w now x ts h)

free_within : (k a limit : ℕ) (b : Bool) → k ≤ a → (ltb a limit && b) ≡ true → suc k ≤ limit
free_within k a limit b h e = ground arith

Admitted-Spent :
    (i : TickInput) (start k j : ℕ) (t t' : Tick)
    → Brief i
    → Spent i start k t
    → Admitted i.config (i.around j) t t'
    → (k' : ℕ) × Spent i start k' t'
unfolding rate_allowed
Admitted-Spent i start k j t t' brief s (inl (same, log)) =
    (k, record { counted = λ j. rw same (s.counted j); within = s.within; log = rw log s.log })
Admitted-Spent i start k j t t' brief s (inr (more, log, free)) = (
  suc k,
  record {
    counted = λ l.
        rw
          (
            more,
            sent_within-snoc minute_ms (i.around l).at_rate (i.around j).at_push t.recent
                (brief l j),
          )
          (let c = s.counted l in omega arith);
    within = (let c = s.counted j in free_within _ _ _ _ c free);
    log = (let l = s.log in omega arith);
  },
)

run_rows-Spent :
    (enc : Encoder) (i : TickInput) (start : ℕ)
    → Brief i
    → (rs : List OutboxRow) (k : ℕ) (t : Tick) → Spent i start k t
    → (k' : ℕ) × Spent i start k' (run_rows enc i rs t)
unfolding run_rows
run_rows-Spent enc i start brief [] k t s = (k, s)
run_rows-Spent enc i start brief (r ∷ rs) k t s =
    step (run_row enc i.config i.keys i.brokers i.util (i.around r.id) r t)
      (Admitted-Spent i start k r.id t _ brief s
        (run_row-Admitted enc i.config i.keys i.brokers i.util (i.around r.id) r t))
      (λ k' t' s'. run_rows-Spent enc i start brief rs k' t' s')
  where
    step :
        (v : Verdict)
        → (k' : ℕ) × Spent i start k' (tick_of v)
        → ((k' : ℕ) (t' : Tick)
            → Spent i start k' t'
            → (k'' : ℕ) × Spent i start k'' (run_rows enc i rs t'))
        → (k' : ℕ) × Spent i start k' (elim v [ done t' ↦ run_rows enc i rs t' | halt t' ↦ t' ])
    step (done t') (k', s') on = on k' t' s'
    step (halt t') s' on = s'

-- When the clock readings of a tick lie within one minute, the tick publishes at most `per_minute`
-- packets.
pub run_tx_outbox_pace :
    (enc : Encoder) (i : TickInput) (t : Tick)
    → Brief i
    → length (run_tx_outbox enc i t).published ≤ length t.published + i.config.per_minute
unfolding run_tx_outbox
run_tx_outbox_pace enc i t brief = at (gate i.config)
  where
    before : Outbox
    before =
        if i.config.enabled then reconcile_confirmations i.evidence i.recent_enough t.db else t.db

    P : Tick → Type 0
    P u = length u.published ≤ length t.published + i.config.per_minute

    at :
        (g : Option Gate)
        → P (elim g [
          | some g ↦ record t { db = before; sent = 0 }
          | none ↦
              run_rows enc i
                (list_pending_tx page before)
                (record t { db = before; recent = recent_sent_at i.at_recent before; sent = 0 })
        ])
    at (some g) = omega arith
    at none =
        let (k, s) =
          run_rows-Spent enc i (length t.published) brief (list_pending_tx page before) 0
            (record t { db = before; recent = recent_sent_at i.at_recent before; sent = 0 })
            (record { counted = λ j. omega arith; within = omega arith; log = omega arith }) in
        let w = s.within in let l = s.log in omega arith
