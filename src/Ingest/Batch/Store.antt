-- ===== src/Ingest/Batch/Store.antt =====
-- What a flush of src/ingest/batch.ts stores.
use hop_watch.Prelude.{
  ℕ, zero, suc, ◌+◌, ◌*◌, ◌≤◌, ◌<◌, ◌≡◌, refl, sym, ap, ◌∙◌, Bool, true, false, not, List, [], ◌∷◌,
  ◌++◌, arith, if◌then◌else◌, if-cases, length, take, drop, filter, length-append, length-drop,
  take-append, drop-append,
}
use hop_watch.Ingest.Batch.{BatchConfig, BatchDb, store_chunk, store_chunks, store_drained}

module _ {ℓ} {A : Type ℓ} where
  filter-append : (p : A → Bool) (xs ys : List A) → filter p (xs ++ ys) ≡ filter p xs ++ filter p ys
  filter-append p [] ys = refl
  filter-append p (x ∷ xs) ys = ground (arith, filter-append p xs ys)

  filter_twice : (p : A → Bool) (xs : List A) → filter p (filter p xs) ≡ filter p xs
  filter_twice p [] = refl
  filter_twice p (x ∷ xs) = ground (arith, filter_twice p xs)

  take-drop : (n : ℕ) (xs : List A) → take n xs ++ drop n xs ≡ xs
  take-drop zero xs = refl
  take-drop (suc n) [] = refl
  take-drop (suc n) (x ∷ xs) = ap (x ∷◌) (take-drop n xs)

  store_chunk_keeps :
      (db : BatchDb A) (xs : List A) → filter db.single (store_chunk db xs) ≡ filter db.single xs
  unfolding store_chunk
  store_chunk_keeps db xs =
      if-cases (λ ys. filter db.single ys ≡ filter db.single xs) (db.commit xs) (λ _. refl)
        (λ _. filter_twice db.single xs)

  store_chunks_keeps :
      (fuel n : ℕ) (db : BatchDb A) (xs : List A)
      → 0 < n
      → length xs ≤ fuel
      → ((ys : List A) → db.connect ys ≡ true)
      → filter db.single (store_chunks fuel n db xs) ≡ filter db.single xs
  unfolding store_chunks
  store_chunks_keeps zero n db [] pos h up = refl
  store_chunks_keeps zero n db (x ∷ xs) pos h up = absurd (omega arith)
  store_chunks_keeps (suc fuel) n db [] pos h up = refl
  store_chunks_keeps (suc fuel) n db (x ∷ xs) pos h up = rw (up (take n (x ∷ xs))) (
      filter-append db.single (store_chunk db (take n (x ∷ xs))) _
      ∙ ap (λ ys. ys ++ filter db.single (store_chunks fuel n db (drop n (x ∷ xs))))
          (store_chunk_keeps db (take n (x ∷ xs)))
      ∙ ap (filter db.single (take n (x ∷ xs)) ++◌)
          (store_chunks_keeps fuel n db (drop n (x ∷ xs)) pos (shorter) up)
      ∙ sym (filter-append db.single (take n (x ∷ xs)) (drop n (x ∷ xs)))
      ∙ ap (filter db.single) (take-drop n (x ∷ xs)))
    where
      shorter : length (drop n (x ∷ xs)) ≤ fuel
      shorter = (let d = length-drop n (x ∷ xs) in omega arith)

  -- While connections are given, whatever chunks fail to commit, no item is lost that could be
  -- stored alone: those among the stored items are those among the drained ones, in their order.
  pub store_drained_keeps :
      (cfg : BatchConfig) (db : BatchDb A) (items : List A)
      → 0 < cfg.max_batch
      → ((ys : List A) → db.connect ys ≡ true)
      → filter db.single (store_drained cfg db items) ≡ filter db.single items
  unfolding store_drained
  store_drained_keeps cfg db items pos up =
      store_chunks_keeps (length items) cfg.max_batch db items pos (omega arith) up

  store_chunks_cut :
      (k fuel fuel' n : ℕ) (db : BatchDb A) (xs ys : List A)
      → 0 < n
      → length xs ≡ k * n
      → length xs ≤ fuel
      → length xs + length ys ≤ fuel'
      → db.connect (take n ys) ≡ false
      → store_chunks fuel' n db (xs ++ ys) ≡ store_chunks fuel n db xs
  unfolding store_chunks
  store_chunks_cut k fuel fuel' n db [] ys pos whole h h' down =
      stopped fuel' ys down ∙ sym (empty_chunks fuel)
    where
      empty_chunks : (f : ℕ) → store_chunks f n db [] ≡ []
      empty_chunks zero = refl
      empty_chunks (suc f) = refl

      stopped : (f : ℕ) (zs : List A) → db.connect (take n zs) ≡ false → store_chunks f n db zs ≡ []
      stopped zero zs off = refl
      stopped (suc f) [] off = refl
      stopped (suc f) (z ∷ zs) off = rw off refl
  store_chunks_cut zero fuel fuel' n db (x ∷ xs) ys pos whole h h' down = absurd (omega arith)
  store_chunks_cut (suc k) zero fuel' n db (x ∷ xs) ys pos whole h h' down = absurd (omega arith)
  store_chunks_cut (suc k) (suc fuel) zero n db (x ∷ xs) ys pos whole h h' down =
      absurd (omega arith)
  store_chunks_cut (suc k) (suc fuel) (suc fuel') n db (x ∷ xs) ys pos whole h h' down =
      rw (take-append n (x ∷ xs) ys full, drop-append n (x ∷ xs) ys full)
        (ap
          (λ rest.
            if not (db.connect (take n (x ∷ xs)))
            then []
            else store_chunk db (take n (x ∷ xs)) ++ rest)
          (store_chunks_cut k fuel fuel' n db (drop n (x ∷ xs)) ys pos (left) (shorter) (shorter')
            down))
    where
      full : n ≤ length (x ∷ xs)
      full = omega arith

      left : length (drop n (x ∷ xs)) ≡ k * n
      left = (let d = length-drop n (x ∷ xs) in omega arith)

      shorter : length (drop n (x ∷ xs)) ≤ fuel
      shorter = (let d = length-drop n (x ∷ xs) in omega arith)

      shorter' : length (drop n (x ∷ xs)) + length ys ≤ fuel'
      shorter' = (let d = length-drop n (x ∷ xs) in omega arith)

  -- Batches hold one item or more. Where no connection is given for a chunk, that chunk and
  -- everything that was drained behind it is lost: what is stored is what would have been stored
  -- had only the whole chunks before it been drained, whatever connections the later chunks would
  -- be given and however well their items could be stored alone.
  pub store_drained_cut :
      (cfg : BatchConfig) (db : BatchDb A) (k : ℕ) (xs ys : List A)
      → 0 < cfg.max_batch
      → length xs ≡ k * cfg.max_batch
      → db.connect (take cfg.max_batch ys) ≡ false
      → store_drained cfg db (xs ++ ys) ≡ store_drained cfg db xs
  unfolding store_drained
  store_drained_cut cfg db k xs ys pos whole down =
      store_chunks_cut k (length xs) (length (xs ++ ys)) cfg.max_batch db xs ys pos whole
        (omega arith) (let e = length-append xs ys in omega arith) down
