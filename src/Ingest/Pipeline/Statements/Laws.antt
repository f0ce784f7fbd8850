-- ===== src/Ingest/Pipeline/Statements/Laws.antt =====
-- What the statements of src/ingest/pipeline.ts keep of a table.
use hop_watch.Prelude.{
  ℕ, ◌+◌, ◌<◌, ◌≡◌, refl, subst, ◌≢◌, inl, inr, Bool, true, false, none, some, List, [], ◌∷◌, ◌++◌,
  map, arith, Bool-cases, if-cases, All, All-append,
}
use hop_watch.Ingest.Pipeline.Statements.{update_where, count_where, find_row, upsert}

module _ {ℓ} {A : Type ℓ} where
  -- A column that the patch leaves alone.
  pub map-update_where {κ} :
      {B : Type κ} (f : A → B) (hit : A → Bool) (patch : A → A)
      → ((r : A) → f (patch r) ≡ f r)
      → (rows : List A) → map f (update_where hit patch rows) ≡ map f rows
  map-update_where f hit patch same [] = refl
  map-update_where f hit patch same (r ∷ rs) =
      ground (arith, same r, map-update_where f hit patch same rs)

  pub All-update_where {κ μ} :
      (P : A → Type κ) (Q : A → Type μ) (hit : A → Bool) (patch : A → A)
      → ((r : A) → hit r ≡ true → P r → Q (patch r))
      → ((r : A) → hit r ≡ false → P r → Q r)
      → (rows : List A) → All P rows
      → All Q (update_where hit patch rows)
  All-update_where P Q hit patch on off [] h = tt
  All-update_where P Q hit patch on off (r ∷ rs) (p, h) = (
    if-cases Q (hit r) (λ e. on r e p) (λ e. off r e p),
    All-update_where P Q hit patch on off rs h,
  )

  pub All-map {κ μ} :
      (P : A → Type κ) (Q : A → Type μ)
      → ((r : A) → P r → Q r)
      → (rows : List A) → All P rows
      → All Q rows
  All-map P Q f [] h = tt
  All-map P Q f (r ∷ rs) (p, h) = (f r p, All-map P Q f rs h)

  pub All-both {κ μ} :
      (P : A → Type κ) (Q : A → Type μ) (rows : List A)
      → All P rows
      → All Q rows
      → All (λ r. P r × Q r) rows
  All-both P Q [] h k = tt
  All-both P Q (r ∷ rs) (p, h) (q, k) = ((p, q), All-both P Q rs h k)

  pub All-unmap {κ μ} :
      {B : Type κ} (P : B → Type μ) (f : A → B) (rows : List A)
      → All P (map f rows)
      → All (λ r. P (f r)) rows
  All-unmap P f [] h = tt
  All-unmap P f (r ∷ rs) (p, h) = (p, All-unmap P f rs h)

  -- A row that is found is a hit, and has what all rows have.
  pub find_row-hit :
      (hit : A → Bool) (rows : List A) {r : A} → find_row hit rows ≡ some r → hit r ≡ true
  find_row-hit hit [] e = cc
  find_row-hit hit (x ∷ rs) e = elim (Bool-cases (hit x)) [
    | inl yes_hit ↦ ground (arith, yes_hit)
    | inr no_hit ↦ find_row-hit hit rs (ground (arith, no_hit))
  ]

  pub find_row-All {κ} :
      (P : A → Type κ) (hit : A → Bool) (rows : List A) {r : A}
      → find_row hit rows ≡ some r
      → All P rows
      → P r
  find_row-All P hit [] e h = absurd (cc)
  find_row-All P hit (x ∷ rs) {r} e (p, h) = elim (Bool-cases (hit x)) [
    | inl yes_hit ↦ subst P (ground (arith, yes_hit)) p
    | inr no_hit ↦ find_row-All P hit rs (ground (arith, no_hit)) h
  ]

  -- An upsert of a row that is there patches it.
  pub find_row-upsert :
      (hit : A → Bool) (patch : A → A) (fresh : A) (rows : List A) {o : A}
      → find_row hit rows ≡ some o
      → hit (patch o) ≡ true
      → find_row hit (upsert hit patch fresh rows) ≡ some (patch o)
  find_row-upsert hit patch fresh [] e h = absurd (cc)
  find_row-upsert hit patch fresh (x ∷ rs) {o} e h = elim (Bool-cases (hit x)) [
    | inl yes_hit ↦
        let same : o ≡ x = ground (arith, yes_hit) in
        rw yes_hit (subst (λ y. find_row hit (patch y ∷ rs) ≡ some (patch o)) same (rw h refl))
    | inr no_hit ↦
        rw (no_hit, no_hit) (find_row-upsert hit patch fresh rs (ground (arith, no_hit)) h)
  ]

  -- An update of rows that stay hits.
  pub find_row-update_where :
      (hit : A → Bool) (patch : A → A) (rows : List A) {o : A}
      → find_row hit rows ≡ some o
      → hit (patch o) ≡ true
      → find_row hit (update_where hit patch rows) ≡ some (patch o)
  find_row-update_where hit patch [] e h = absurd (cc)
  find_row-update_where hit patch (x ∷ rs) {o} e h = elim (Bool-cases (hit x)) [
    | inl yes_hit ↦
        let same : o ≡ x = ground (arith, yes_hit) in
        rw yes_hit (
          subst (λ y. find_row hit (patch y ∷ update_where hit patch rs) ≡ some (patch o)) same
            (rw h refl))
    | inr no_hit ↦
        rw (no_hit, no_hit) (find_row-update_where hit patch rs (ground (arith, no_hit)) h)
  ]

  pub find_row-none :
      (hit : A → Bool) (rows : List A) → find_row hit rows ≡ none → All (λ r. hit r ≡ false) rows
  find_row-none hit [] e = tt
  find_row-none hit (x ∷ rs) e = elim (Bool-cases (hit x)) [
    | inl yes_hit ↦ absurd (ground (arith, yes_hit))
    | inr no_hit ↦ (no_hit, find_row-none hit rs (ground (arith, no_hit)))
  ]

  pub find_row-append :
      (hit : A → Bool) (rows : List A) (v : A)
      → find_row hit rows ≡ none
      → hit v ≡ true
      → find_row hit (rows ++ v ∷ []) ≡ some v
  find_row-append hit [] v e h = rw h refl
  find_row-append hit (x ∷ rs) v e h = elim (Bool-cases (hit x)) [
    | inl yes_hit ↦ absurd (ground (arith, yes_hit))
    | inr no_hit ↦ rw no_hit (find_row-append hit rs v (ground (arith, no_hit)) h)
  ]

  pub count_where-append :
      (hit : A → Bool) (xs ys : List A)
      → count_where hit (xs ++ ys) ≡ count_where hit xs + count_where hit ys
  count_where-append hit [] ys = omega arith
  count_where-append hit (x ∷ xs) ys = ground (arith, count_where-append hit xs ys)

  -- A test that the patch leaves alone.
  pub count_where-update_where :
      (test hit : A → Bool) (patch : A → A)
      → ((r : A) → test (patch r) ≡ test r)
      → (rows : List A) → count_where test (update_where hit patch rows) ≡ count_where test rows
  count_where-update_where test hit patch same [] = refl
  count_where-update_where test hit patch same (r ∷ rs) =
      ground (arith, same r, count_where-update_where test hit patch same rs)

  pub count_where_none :
      (hit : A → Bool) (rows : List A) → All (λ r. hit r ≡ false) rows → count_where hit rows ≡ 0
  count_where_none hit [] h = refl
  count_where_none hit (r ∷ rs) (p, h) = ground (arith, p, count_where_none hit rs h)

-- No number occurs twice.
abbrev pub Distinct : List ℕ → Type 0
Distinct [] = Unit
Distinct (x ∷ xs) = All (λ y. y ≢ x) xs × Distinct xs

pub All-ne_of_lt : (n : ℕ) (xs : List ℕ) → All (λ x. x < n) xs → All (λ x. x ≢ n) xs
All-ne_of_lt n [] h = tt
All-ne_of_lt n (x ∷ xs) (p, h) = (ground arith, All-ne_of_lt n xs h)

pub Distinct-append :
    (xs : List ℕ) (n : ℕ) → All (λ x. x < n) xs → Distinct xs → Distinct (xs ++ n ∷ [])
Distinct-append [] n h d = (tt, tt)
Distinct-append (x ∷ xs) n (p, h) (ne, d) =
    (All-append (λ y. y ≢ x) xs (n ∷ []) ne (ground arith, tt), Distinct-append xs n h d)
