-- ===== src/Ingest/Batch/Queue.antt =====
-- What the queue of src/ingest/batch.ts holds, and that it is always flushed.
use hop_watch.Prelude.{
  ℕ, suc, ◌+◌, ◌≤◌, ◌≡◌, refl, sym, ap, subst, ◌∙◌, true, false, ◌||◌, List, [], ◌∷◌, ◌++◌, arith,
  leb, if-cases, length, length-append,
}
use mathlib.Core.List.{append-nil, append_assoc}
use hop_watch.Ingest.Batch.{
  BatchConfig, BatchIngestor, BatchEvent, arrives, timer_fires, flush_ends, is_empty, begin_flush,
  enqueue, end_flush, on_event, on_events,
}

module _ {ℓ} {A : Type ℓ} where
  -- Everything that was accepted, in the order of its arrival.
  abbrev pub accepted : BatchIngestor A → List A
  accepted b = b.handled ++ b.in_flight ++ b.queue

  -- The queue is within its cap, what waits has a timer or a flush that will see to it, and
  -- nothing is in flight without a flush.
  pub record WellFormed (cfg : BatchConfig) (b : BatchIngestor A) : Type ℓ where
    pub capped : length b.queue ≤ cfg.max_queue
    pub scheduled : is_empty b.queue ≡ false → (b.timer || b.flushing) ≡ true
    pub idle : b.flushing ≡ false → b.in_flight ≡ []

  begin_flush-WellFormed :
      (cfg : BatchConfig) (b : BatchIngestor A)
      → length b.queue ≤ cfg.max_queue
      → (b.flushing ≡ false → b.in_flight ≡ [])
      → WellFormed cfg (begin_flush b)
        × (accepted (begin_flush b) ≡ accepted b)
        × ((begin_flush b).dropped ≡ b.dropped)
  unfolding begin_flush
  begin_flush-WellFormed cfg b capped idle =
      if-cases
        (λ (b' : BatchIngestor A).
          WellFormed cfg b' × (accepted b' ≡ accepted b) × (b'.dropped ≡ b.dropped))
        (b.flushing || is_empty b.queue)
        (λ busy. (
          record { capped = capped; scheduled = λ some_left. (ground arith); idle = idle },
          refl,
          refl,
        ))
        (λ free. (
          record { capped = omega arith; scheduled = λ e. refl; idle = λ e. absurd (cc) },
          moved (idle (ground arith)),
          refl,
        ))
    where
      moved : b.in_flight ≡ [] → b.handled ++ b.queue ++ [] ≡ b.handled ++ b.in_flight ++ b.queue
      moved e =
          append-nil (b.handled ++ b.queue)
          ∙ sym (
              ap (λ f. b.handled ++ f ++ b.queue) e ∙ ap (λ l. l ++ b.queue) (append-nil b.handled))

  -- After some arrivals: well-formed, and each arrival is accepted, behind the others, or counted
  -- as dropped.
  pub record Accounts (cfg : BatchConfig) (arrivals : ℕ) (b b' : BatchIngestor A) : Type ℓ where
    pub well_formed : WellFormed cfg b'
    pub new : List A
    pub order : accepted b' ≡ accepted b ++ new
    pub count : length new + b'.dropped ≡ arrivals + b.dropped

  begin_flush-Accounts :
      (cfg : BatchConfig) (b : BatchIngestor A)
      → WellFormed cfg b
      → Accounts cfg 0 b (begin_flush b)
  begin_flush-Accounts cfg b w =
      let (w', e, d) = begin_flush-WellFormed cfg b w.capped w.idle in
      record {
        well_formed = w';
        new = [];
        order = e ∙ sym (append-nil (accepted b));
        count = (omega (arith, d));
      }

  enqueue-Accounts :
      (cfg : BatchConfig) (x : A) (b : BatchIngestor A)
      → WellFormed cfg b
      → Accounts cfg 1 b (enqueue cfg x b)
  unfolding enqueue
  enqueue-Accounts cfg x b w =
      if-cases (Accounts cfg 1 b) (leb cfg.max_queue (length b.queue))
        (λ full. record {
          well_formed = record { capped = w.capped; scheduled = w.scheduled; idle = w.idle };
          new = [];
          order = sym (append-nil (accepted b));
          count = omega arith;
        })
        (λ room.
          if-cases (Accounts cfg 1 b) (leb cfg.max_batch (length (b.queue ++ x ∷ [])))
            (λ batch.
              let (w', e, d) = begin_flush-WellFormed cfg grown (fits room) w.idle in
              record { well_formed = w'; new = x ∷ []; order = e ∙ behind; count = ap (1 +◌) d })
            (λ wait. record {
              well_formed = record { capped = fits room; scheduled = λ e. refl; idle = w.idle };
              new = x ∷ [];
              order = behind;
              count = refl;
            }))
    where
      grown : BatchIngestor A
      grown = record b { queue = b.queue ++ x ∷ [] }

      fits : leb cfg.max_queue (length b.queue) ≡ false → length (b.queue ++ x ∷ []) ≤ cfg.max_queue
      fits room = (let l = length-append b.queue (x ∷ []) in ground arith)

      behind : b.handled ++ b.in_flight ++ (b.queue ++ x ∷ []) ≡ accepted b ++ x ∷ []
      behind = sym (append_assoc (b.handled ++ b.in_flight) b.queue (x ∷ []))

  end_flush-Accounts :
      (cfg : BatchConfig) (b : BatchIngestor A) → WellFormed cfg b → Accounts cfg 0 b (end_flush b)
  unfolding end_flush
  end_flush-Accounts cfg b w = record {
    well_formed = record { capped = w.capped; scheduled = λ e. (ground arith); idle = λ e. refl };
    new = [];
    order =
        ap (λ l. l ++ b.queue) (append-nil (b.handled ++ b.in_flight))
        ∙ sym (append-nil (accepted b));
    count = refl;
  }

  Accounts-refl : (cfg : BatchConfig) (b : BatchIngestor A) → WellFormed cfg b → Accounts cfg 0 b b
  Accounts-refl cfg b w = record {
    well_formed = w;
    new = [];
    order = sym (append-nil (accepted b));
    count = refl;
  }

  -- The number of deliveries among the events.
  abbrev pub arrivals : List (BatchEvent A) → ℕ
  arrivals [] = 0
  arrivals (arrives x ∷ es) = suc (arrivals es)
  arrivals (timer_fires ∷ es) = arrivals es
  arrivals (flush_ends ∷ es) = arrivals es

  on_event-Accounts :
      (cfg : BatchConfig) (e : BatchEvent A) (b : BatchIngestor A)
      → WellFormed cfg b
      → Accounts cfg (arrivals (e ∷ [])) b (on_event cfg e b)
  unfolding on_event
  on_event-Accounts cfg (arrives x) b w = enqueue-Accounts cfg x b w
  on_event-Accounts cfg timer_fires b w =
      if-cases (Accounts cfg 0 b) b.timer (λ _. begin_flush-Accounts cfg b w)
        (λ _. Accounts-refl cfg b w)
  on_event-Accounts cfg flush_ends b w =
      if-cases (Accounts cfg 0 b) b.flushing (λ _. end_flush-Accounts cfg b w)
        (λ _. Accounts-refl cfg b w)

  Accounts-trans :
      (cfg : BatchConfig) (m n : ℕ) (a b c : BatchIngestor A)
      → Accounts cfg m a b
      → Accounts cfg n b c
      → Accounts cfg (m + n) a c
  Accounts-trans cfg m n a b c f g = record {
    well_formed = g.well_formed;
    new = f.new ++ g.new;
    order = g.order ∙ ap (λ l. l ++ g.new) f.order ∙ append_assoc (accepted a) f.new g.new;
    count = (let x = f.count in let y = g.count in omega (arith, length-append f.new g.new));
  }

  -- From a well-formed ingestor, through any deliveries, timers and ends of flushes: the queue
  -- stays within its cap, what waits always has a timer or a running flush, and every delivery is
  -- either handled, in flight or queued, in the order of arrival, or counted as dropped.
  pub on_events-Accounts :
      (cfg : BatchConfig) (es : List (BatchEvent A)) (b : BatchIngestor A)
      → WellFormed cfg b
      → Accounts cfg (arrivals es) b (on_events cfg es b)
  unfolding on_events
  on_events-Accounts cfg [] b w = Accounts-refl cfg b w
  on_events-Accounts cfg (e ∷ es) b w =
      let f = on_event-Accounts cfg e b w in
      let g = on_events-Accounts cfg es (on_event cfg e b) f.well_formed in
      subst (λ n. Accounts cfg n b (on_events cfg es (on_event cfg e b))) (counted e)
        (Accounts-trans cfg (arrivals (e ∷ [])) (arrivals es) b _ _ f g)
    where
      counted : (e : BatchEvent A) → arrivals (e ∷ []) + arrivals es ≡ arrivals (e ∷ es)
      counted (arrives x) = omega arith
      counted timer_fires = omega arith
      counted flush_ends = omega arith
