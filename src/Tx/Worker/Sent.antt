-- ===== src/Tx/Worker/Sent.antt =====
-- What one round of the loop in src/worker/tx.ts adds to the log of publishes.
use hop_watch.Prelude.{
  ℕ, ◌+◌, ◌≤◌, String, ◌≡◌, refl, sym, ◌∙◌, ◌≢◌, ◌⊎◌, inl, inr, Bool, true, false, not, Option,
  none, some, List, [], ◌∷◌, ◌++◌, arith, str_eq, str_eq_iff, if◌then◌else◌, Bool-cases, if-cases,
}
use mathlib.Core.Bool.{false≢true}
use hop_watch.Tx.State.{TxState, sent, dry_run}
use hop_watch.Tx.Outbox.{
  Transport, mqtt, node, TxError, encode_failed, no_channel_key, no_node_channel, no_topic_root,
  OutboxRow, Outbox, is_pending, update_outbox, set_state,
}
use hop_watch.Tx.Outbox.Touched.{
  waiting, Touches, Touches-refl, Touches-trans, KeepsId, update_outbox-Touches,
  waiting-update_self, waiting-update_same,
}
use hop_watch.Tx.Worker.Row.{
  is_probe, fail, text_or_empty, key_of, topic_root_for, using_node, request_of, sent_patch,
  same_packet, keep_packet_id, published_of, finish, encode, transmit,
}
use hop_watch.Tx.Worker.Shapes.{
  TxConfig, Broker, TxRequest, Encoded, Encoder, Around, Published, Tick,
}

pub set_state-Touches :
    (id : ℕ) (s : TxState) (extra : OutboxRow → OutboxRow) (db : Outbox)
    → KeepsId extra
    → Touches id db (set_state id s extra db)
unfolding set_state
set_state-Touches id s extra db keep =
    update_outbox-Touches id (λ r. record (extra r) { state = s }) keep db

fail-Touches :
    (row : OutboxRow) (why : TxError) (now : ℕ) (db : Outbox)
    → Touches row.id db (fail row why now db)
unfolding fail
fail-Touches row why now db = set_state-Touches row.id _ _ db (λ r. refl)

keep_packet_id-Touches :
    (row : OutboxRow) (packet : ℕ) (db : Outbox)
    → Touches row.id db (keep_packet_id row packet db)
      × (waiting row.id (keep_packet_id row packet db) ≡ waiting row.id db)
unfolding keep_packet_id
keep_packet_id-Touches row packet db = elim (Bool-cases (same_packet row.packet_id packet)) [
  | inl same ↦ rw same (Touches-refl row.id db, refl)
  | inr other ↦ rw other (
    update_outbox-Touches row.id (λ r. record r { packet_id = some packet }) (λ r. refl) db,
    waiting-update_same row.id _ (λ r. refl) (λ r. refl) db,
  )
]

-- What is true of a publish for a row.
pub record IsSafe (cfg : TxConfig) (row : OutboxRow) (p : Published) : Type 0 where
  pub of_row : p.row ≡ row.id
  pub live : cfg.dry_run ≡ false
  pub hops : p.request.hop_limit ≤ cfg.max_hop_limit
  pub keyed : p.via ≡ mqtt → p.request.channel_key ≢ ""
  pub rooted : p.via ≡ mqtt → p.request.topic_root ≢ ""
  pub probe : is_probe row.kind ≡ true → p.via ≡ node
  pub retry : p.request.packet_id ≡ row.packet_id

-- The log stays, or it grows by one safe publish of a row that waits no longer.
abbrev pub Grows : TxConfig → OutboxRow → Tick → Tick → Type 0
Grows cfg row t t' =
    (t'.published ≡ t.published)
    ⊎ ((p : Published) × (t'.published ≡ p ∷ t.published)
        × IsSafe cfg row p
        × (waiting row.id t.db ≡ false → waiting row.id t'.db ≡ false))

-- What the worker has seen to before it encodes a request.
record Fits (cfg : TxConfig) (row : OutboxRow) (on_node : Bool) (req : TxRequest) : Type 0 where
  hops : req.hop_limit ≤ cfg.max_hop_limit
  keyed : on_node ≡ false → req.channel_key ≢ ""
  rooted : on_node ≡ false → req.topic_root ≢ ""
  probe : is_probe row.kind ≡ true → on_node ≡ true
  retry : req.packet_id ≡ row.packet_id

abbrev via_of : Bool → Transport
via_of on_node = if on_node then node else mqtt

mqtt_only : (b : Bool) → via_of b ≡ mqtt → b ≡ false
mqtt_only true e = absurd (cc)
mqtt_only false e = refl

published_of-IsSafe :
    (cfg : TxConfig) (row : OutboxRow) (on_node : Bool) (req : TxRequest) (e : Encoded)
    → Fits cfg row on_node req
    → cfg.dry_run ≡ false
    → IsSafe cfg row (published_of row on_node req e)
unfolding published_of
published_of-IsSafe cfg row on_node req e fits wet = record {
  of_row = refl;
  live = wet;
  hops = fits.hops;
  keyed = λ m. fits.keyed (mqtt_only on_node m);
  rooted = λ m. fits.rooted (mqtt_only on_node m);
  probe = λ p. rw (fits.probe p) refl;
  retry = fits.retry;
}

abbrev pub Round : TxConfig → OutboxRow → Tick → Tick → Type 0
Round cfg row t t' = Touches row.id t.db t'.db × Grows cfg row t t'

fail-Round :
    (cfg : TxConfig) (row : OutboxRow) (why : TxError) (now : ℕ) (t : Tick)
    → Round cfg row t (record t { db = fail row why now t.db })
fail-Round cfg row why now t = (fail-Touches row why now t.db, inl refl)

sent_patch-Touches :
    (row : OutboxRow) (packet now : ℕ) (s : TxState) (db : Outbox)
    → Touches row.id db (update_outbox row.id (sent_patch row packet now s) db)
sent_patch-Touches row packet now s db =
    update_outbox-Touches row.id (sent_patch row packet now s) (λ r. unfold sent_patch in refl) db

waiting-sent :
    (row : OutboxRow) (packet now : ℕ) (db : Outbox)
    → waiting row.id (update_outbox row.id (sent_patch row packet now sent) db) ≡ false
waiting-sent row packet now db =
    waiting-update_self row.id (sent_patch row packet now sent) (λ r. unfold sent_patch in refl)
      (λ r. unfold sent_patch is_pending in refl) db

finish-Round :
    (cfg : TxConfig) (env : Around) (row : OutboxRow) (on_node : Bool) (req : TxRequest)
    (e : Encoded) (t : Tick)
    → Fits cfg row on_node req
    → Round cfg row t (finish cfg env row on_node req e t)
unfolding finish
finish-Round cfg env row on_node req e t fits =
    if-cases (Round cfg row t) cfg.dry_run
      (λ dry. (Touches-trans row.id kept.0 (sent_patch-Touches row _ _ dry_run _), inl refl))
      (λ wet.
        if-cases (Round cfg row t) (not env.publish_ok)
          (λ lost. (Touches-trans row.id kept.0 (fail-Touches row _ _ _), inl refl))
          (λ out. noted wet env.record_ok))
  where
    kept :
        Touches row.id t.db (keep_packet_id row e.packet_id t.db)
        × (waiting row.id (keep_packet_id row e.packet_id t.db) ≡ waiting row.id t.db)
    kept = keep_packet_id-Touches row e.packet_id t.db

    safe : cfg.dry_run ≡ false → IsSafe cfg row (published_of row on_node req e)
    safe wet = published_of-IsSafe cfg row on_node req e fits wet

    noted :
        cfg.dry_run ≡ false
        → (b : Bool)
        → Round cfg row t (record t {
          db =
              if b
              then update_outbox row.id
                  (sent_patch row e.packet_id env.at_publish sent)
                  (keep_packet_id row e.packet_id t.db)
              else keep_packet_id row e.packet_id t.db;
          recent = t.recent ++ env.at_push ∷ [];
          sent = t.sent + 1;
          published = published_of row on_node req e ∷ t.published;
        })
    noted wet true = (
      Touches-trans row.id kept.0 (sent_patch-Touches row _ _ sent _),
      inr (published_of row on_node req e, refl, safe wet, λ h. waiting-sent row _ _ _),
    )
    noted wet false =
        (kept.0, inr (published_of row on_node req e, refl, safe wet, λ h. kept.1 ∙ h))

encode-Round :
    (enc : Encoder) (cfg : TxConfig) (env : Around) (row : OutboxRow) (on_node : Bool)
    (req : TxRequest) (t : Tick)
    → Fits cfg row on_node req
    → Round cfg row t (encode enc cfg env row on_node req t)
unfolding encode
encode-Round enc cfg env row on_node req t fits =
    split (if on_node then enc.to_radio env.random req else enc.to_mqtt env.random req) refl
  where
    split :
        (o : Option Encoded)
        → (if on_node then enc.to_radio env.random req else enc.to_mqtt env.random req) ≡ o
        → Round cfg row t (encode enc cfg env row on_node req t)
    split none e = rw (e, encode) (fail-Round cfg row encode_failed env.at_fail t)
    split (some x) e = rw (e, encode) (finish-Round cfg env row on_node req x t fits)

str_ne : (s : String) → str_eq s "" ≡ false → s ≢ ""
str_ne s h e = ground (arith, str_eq_iff s "")

probe_on_node :
    (cfg : TxConfig) (row : OutboxRow) → is_probe row.kind ≡ true → using_node cfg row ≡ true
unfolding using_node
probe_on_node cfg row h = rw h refl

pub transmit-Round :
    (enc : Encoder) (cfg : TxConfig) (keys : List (String × String)) (brokers : List Broker)
    (env : Around) (row : OutboxRow) (t : Tick)
    → Round cfg row t (transmit enc cfg keys brokers env row t)
unfolding transmit
transmit-Round enc cfg keys brokers env row t =
    if-cases (Round cfg row t) (using_node cfg row) (λ on. by_radio on env.channel_index)
      (λ off.
        if-cases (Round cfg row t) (str_eq key "")
          (λ bare. fail-Round cfg row no_channel_key env.at_fail t)
          (λ keyed.
            if-cases (Round cfg row t) (str_eq root "")
              (λ lost. fail-Round cfg row no_topic_root env.at_fail t)
              (λ rooted.
                encode-Round enc cfg env row false (request_of cfg row 0 key root) t (record {
                  hops = omega arith;
                  keyed = λ e. str_ne key keyed;
                  rooted = λ e. str_ne root rooted;
                  probe = λ p. absurd (false≢true (sym off ∙ probe_on_node cfg row p));
                  retry = refl;
                }))))
  where
    key : String
    key = key_of (text_or_empty row.channel_id) keys

    root : String
    root = topic_root_for brokers row.broker_id cfg.broker_id

    by_radio :
        using_node cfg row ≡ true
        → (o : Option ℕ)
        → Round cfg row t (elim o [
          | none ↦ record t { db = fail row no_node_channel env.at_fail t.db }
          | some index ↦ encode enc cfg env row true (request_of cfg row index key "") t
        ])
    by_radio on none = fail-Round cfg row no_node_channel env.at_fail t
    by_radio on (some index) =
        encode-Round enc cfg env row true (request_of cfg row index key "") t (record {
          hops = omega arith;
          keyed = λ e. absurd (cc);
          rooted = λ e. absurd (cc);
          probe = λ p. refl;
          retry = refl;
        })
