-- ===== src/Ingest/Batch.antt =====
-- Micro-batching of deliveries, src/ingest/batch.ts. A flush runs while others enqueue, so it has
-- a beginning, which takes the queue, and an end; what it stores in between is a function of the
-- database's answers. The log lines and `drain` are not modelled.
pub mod Queue
pub mod Store
mod Tests
use hop_watch.Prelude.{
  ℕ, zero, suc, ◌+◌, Bool, true, false, not, ◌||◌, List, [], ◌∷◌, ◌++◌, leb, if◌then◌else◌, length,
  take, drop, filter,
}

pub record BatchConfig : Type 0 where
  pub max_batch : ℕ
  pub max_queue : ℕ

-- The fields of a `BatchIngestor`, with the items that the running flush has taken and those that
-- earlier flushes were done with.
pub record BatchIngestor {ℓ} (A : Type ℓ) : Type ℓ where
  pub queue : List A
  pub flushing : Bool
  pub timer : Bool
  pub dropped : ℕ
  pub in_flight : List A
  pub handled : List A

-- Whether a connection is given for a chunk, whether the chunk commits, and whether an item is
-- stored when it is tried alone.
pub record BatchDb {ℓ} (A : Type ℓ) : Type ℓ where
  pub connect : List A → Bool
  pub commit : List A → Bool
  pub single : A → Bool

module _ {ℓ} {A : Type ℓ} where
  abbrev pub is_empty : List A → Bool
  is_empty [] = true
  is_empty (x ∷ xs) = false

  -- `flush` up to its first `await`.
  unfoldable pub begin_flush : BatchIngestor A → BatchIngestor A
  begin_flush b =
      let b' : BatchIngestor A = record b { timer = false } in
      if b.flushing || is_empty b.queue
      then b'
      else record b' { flushing = true; queue = []; in_flight = b.queue }

  unfoldable pub enqueue : BatchConfig → A → BatchIngestor A → BatchIngestor A
  unfolding begin_flush
  enqueue cfg x b =
      if leb cfg.max_queue (length b.queue)
      then record b { dropped = b.dropped + 1 }
      else let b' : BatchIngestor A = record b { queue = b.queue ++ x ∷ [] } in
        if leb cfg.max_batch (length b'.queue) then begin_flush b' else record b' { timer = true }

  -- The outer `finally` of `flush`.
  unfoldable pub end_flush : BatchIngestor A → BatchIngestor A
  end_flush b = record b {
    flushing = false;
    timer = b.timer || not (is_empty b.queue);
    in_flight = [];
    handled = b.handled ++ b.in_flight;
  }

  -- One chunk: committed whole, or its items one by one.
  unfoldable pub store_chunk : BatchDb A → List A → List A
  store_chunk db chunk = if db.commit chunk then chunk else filter db.single chunk

  -- The loop over the chunks of what was drained: what it stores. Where no connection is given it
  -- is left by the exception. Each round takes an item at least, so the number of items is fuel
  -- enough.
  unfoldable pub store_chunks : ℕ → ℕ → BatchDb A → List A → List A
  unfolding store_chunk
  store_chunks zero n db items = []
  store_chunks (suc fuel) n db [] = []
  store_chunks (suc fuel) n db (x ∷ xs) =
      let chunk = take n (x ∷ xs) in
      let rest = store_chunks fuel n db (drop n (x ∷ xs)) in
      if not (db.connect chunk) then [] else store_chunk db chunk ++ rest

  unfoldable pub store_drained : BatchConfig → BatchDb A → List A → List A
  unfolding store_chunks
  store_drained cfg db items = store_chunks (length items) cfg.max_batch db items

-- What happens to an ingestor: a delivery, the timer, the end of the running flush.
pub data BatchEvent {ℓ} (A : Type ℓ) : Type ℓ where
  arrives : A → BatchEvent A
  timer_fires flush_ends : BatchEvent A

module _ {ℓ} {A : Type ℓ} (cfg : BatchConfig) where
  unfoldable pub on_event : BatchEvent A → BatchIngestor A → BatchIngestor A
  unfolding enqueue begin_flush end_flush
  on_event (arrives x) b = enqueue cfg x b
  on_event timer_fires b = if b.timer then begin_flush b else b
  on_event flush_ends b = if b.flushing then end_flush b else b

  unfoldable pub on_events : List (BatchEvent A) → BatchIngestor A → BatchIngestor A
  on_events [] b = b
  on_events (e ∷ es) b = on_events es (on_event e b)
