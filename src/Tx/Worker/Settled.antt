-- ===== src/Tx/Worker/Settled.antt =====
-- What the rows of one tick of src/worker/tx.ts leave settled.
use hop_watch.Prelude.{
  ℕ, ◌≡◌, refl, sym, subst, ◌≢◌, inl, inr, Bool, true, false, not, ◌&&◌, List, [], ◌∷◌, arith, ◌==◌,
  ==_iff, Bool-cases, any,
}
use hop_watch.Tx.Outbox.{OutboxRow}
use hop_watch.Tx.Outbox.Statements.{Honest}
use hop_watch.Tx.Outbox.Touched.{has_id, distinct}
use hop_watch.Tx.Worker.{TickInput, run_rows}
use hop_watch.Tx.Worker.Row.{run_row}
use hop_watch.Tx.Worker.Shapes.{TxConfig, Encoder, Published, Tick, Verdict, done, halt}
use hop_watch.Tx.Worker.Loop.{Closed, tick_of, Outcome, run_row-Outcome}

-- A publish for a row of that id; no two publishes are for the same row.
abbrev pub published_id : ℕ → List Published → Bool
published_id i = any (λ p. p.row == i)

abbrev pub once : List Published → Bool
once [] = true
once (p ∷ ps) = not (published_id p.row ps) && once ps

-- Every row that was published is closed, and none was published twice.
pub record Settled (t : Tick) : Type 0 where
  pub keys : distinct t.db ≡ true
  pub closed : (i : ℕ) → published_id i t.published ≡ true → Closed i t.db
  pub single : once t.published ≡ true

-- No row still to be visited was published.
abbrev Ahead : List OutboxRow → Tick → Type 0
Ahead rs t = (i : ℕ) → published_id i t.published ≡ true → has_id i rs ≡ false

module _ (cfg : TxConfig) (r : OutboxRow) (rs : List OutboxRow) (t t' : Tick)
    (new : has_id r.id rs ≡ false) (s : Settled t) (ahead : Ahead (r ∷ rs) t)
    (out : Outcome cfg r t t') where
  other : (i : ℕ) → published_id i t.published ≡ true → i ≢ r.id
  other i p e = let h = ahead i p in ground arith

  fresh : published_id r.id t.published ≡ false
  fresh = elim (Bool-cases (published_id r.id t.published)) [
    | inl p ↦ absurd (other r.id p refl)
    | inr n ↦ n
  ]

  behind : (i : ℕ) → published_id i t.published ≡ true → Closed i t'.db × (has_id i rs ≡ false)
  behind i p = (out.others i (other i p) (s.closed i p), (let h = ahead i p in ground arith))

  grown :
      (p : Published)
      → p.row ≡ r.id
      → Closed r.id t'.db
      → (i : ℕ) → published_id i (p ∷ t.published) ≡ true
      → Closed i t'.db × (has_id i rs ≡ false)
  grown p own shut i q = elim (Bool-cases (i == r.id)) [
    | inl same ↦
        subst (λ k. Closed k t'.db × (has_id k rs ≡ false)) (sym ((==_iff i r.id).0 same))
          (shut, new)
    | inr ne ↦ behind i (ground arith)
  ]

  Outcome-Settled : Settled t' × Ahead rs t'
  Outcome-Settled = elim out.grows [
    | inl same ↦ (
      record {
        keys = out.keys s.keys;
        closed = λ i p. (behind i (subst (λ ps. published_id i ps ≡ true) same p)).0;
        single = subst (λ ps. once ps ≡ true) (sym same) s.single;
      },
      λ i p. (behind i (subst (λ ps. published_id i ps ≡ true) same p)).1,
    )
    | inr (p, e, safe, shut) ↦ (
      record {
        keys = out.keys s.keys;
        closed = λ i q. (grown p safe.of_row shut i (subst (λ ps. published_id i ps ≡ true) e q)).0;
        single = subst (λ ps. once ps ≡ true) (sym e) (single_cons p safe.of_row);
      },
      λ i q. (grown p safe.of_row shut i (subst (λ ps. published_id i ps ≡ true) e q)).1,
    )
  ]
    where
      single_cons : (p : Published) → p.row ≡ r.id → once (p ∷ t.published) ≡ true
      single_cons p own =
          let f : published_id p.row t.published ≡ false =
            subst (λ k. published_id k t.published ≡ false) (sym own) fresh in
          let g = s.single in ground arith

-- The other processes keep to what `Honest` says.
abbrev pub HonestInput : TickInput → Type 0
HonestInput i = (k : ℕ) → Honest (i.around k).meanwhile

pub run_rows-Settled :
    (enc : Encoder) (i : TickInput)
    → HonestInput i
    → (rs : List OutboxRow) (t : Tick) → distinct rs ≡ true
    → Ahead rs t
    → Settled t
    → Settled (run_rows enc i rs t)
unfolding run_rows
run_rows-Settled enc i honest [] t d ahead s = s
run_rows-Settled enc i honest (r ∷ rs) t d ahead s =
    step (run_row enc i.config i.keys i.brokers i.util (i.around r.id) r t) next
      (λ t' d' a s'. run_rows-Settled enc i honest rs t' d' a s')
  where
    new : has_id r.id rs ≡ false
    new = ground arith

    next :
        Settled (tick_of (run_row enc i.config i.keys i.brokers i.util (i.around r.id) r t))
        × Ahead rs (tick_of (run_row enc i.config i.keys i.brokers i.util (i.around r.id) r t))
    next =
        Outcome-Settled i.config r rs t _ new s ahead
          (run_row-Outcome enc i.config i.keys i.brokers i.util (i.around r.id) r t (honest r.id))

    step :
        (v : Verdict)
        → Settled (tick_of v) × Ahead rs (tick_of v)
        → ((t' : Tick)
            → distinct rs ≡ true
            → Ahead rs t'
            → Settled t'
            → Settled (run_rows enc i rs t'))
        → Settled (elim v [ done t' ↦ run_rows enc i rs t' | halt t' ↦ t' ])
    step (done t') (s', ahead') on = on t' (ground arith) ahead' s'
    step (halt t') (s', ahead') on = s'
