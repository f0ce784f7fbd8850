-- ===== src/Ingest/Batch/Tests.antt =====
-- Runs of a small ingestor, and the theorems at concrete values.
use hop_watch.Prelude.{ℕ, ◌≡◌, refl, true, false, not, List, [], ◌∷◌, arith, ◌==◌, filter, any}
use hop_watch.Ingest.Batch.{
  BatchConfig, BatchDb, BatchIngestor, BatchEvent, arrives, timer_fires, flush_ends, begin_flush,
  end_flush, enqueue, on_event, on_events, store_chunk, store_chunks, store_drained,
}
use hop_watch.Ingest.Batch.Queue.{WellFormed, Accounts, on_events-Accounts}
use hop_watch.Ingest.Batch.Store.{store_drained_keeps, store_drained_cut}

abbrev small : BatchConfig
small = record { max_batch = 2; max_queue = 3 }

abbrev empty : BatchIngestor ℕ
empty = record {
  queue = [];
  flushing = false;
  timer = false;
  dropped = 0;
  in_flight = [];
  handled = [];
}

empty-WellFormed : WellFormed small empty
empty-WellFormed = record { capped = omega arith; scheduled = λ e. absurd (cc); idle = λ e. refl }

abbrev busy : List (BatchEvent ℕ)
busy =
    arrives 1
    ∷ arrives 2
    ∷ arrives 3
    ∷ arrives 4
    ∷ arrives 5
    ∷ arrives 6
    ∷ flush_ends
    ∷ timer_fires
    ∷ []

busy_run : (on_events small busy empty).in_flight ≡ 3 ∷ 4 ∷ 5 ∷ []
unfolding on_events on_event enqueue begin_flush end_flush
busy_run = refl

on_events-Accounts_example : Accounts small 6 empty (on_events small busy empty)
on_events-Accounts_example = on_events-Accounts small busy empty empty-WellFormed

-- A database on which the item 3 fails.
abbrev picky : BatchDb ℕ
picky = record {
  connect = λ xs. true;
  commit = λ xs. not (any (λ x. x == 3) xs);
  single = λ x. not (x == 3);
}

store_run : store_drained small picky (1 ∷ 2 ∷ 3 ∷ 4 ∷ 5 ∷ []) ≡ 1 ∷ 2 ∷ 4 ∷ 5 ∷ []
unfolding store_drained store_chunks store_chunk
store_run = refl

store_drained_keeps_example :
    filter (λ x. not (x == 3)) (store_drained small picky (1 ∷ 3 ∷ 4 ∷ [])) ≡ 1 ∷ 4 ∷ []
store_drained_keeps_example =
    store_drained_keeps small picky (1 ∷ 3 ∷ 4 ∷ []) (omega arith) (λ ys. refl)

-- A database that gives no connection for the chunk that begins with 3.
abbrev flaky : BatchDb ℕ
flaky = record {
  connect = λ xs. not (any (λ x. x == 3) xs);
  commit = λ xs. true;
  single = λ x. true;
}

store_drained_cut_example :
    store_drained small flaky (1 ∷ 2 ∷ 3 ∷ 4 ∷ 5 ∷ 6 ∷ []) ≡ store_drained small flaky (1 ∷ 2 ∷ [])
store_drained_cut_example =
    store_drained_cut small flaky 1 (1 ∷ 2 ∷ []) (3 ∷ 4 ∷ 5 ∷ 6 ∷ []) (omega arith) (omega arith)
      refl
