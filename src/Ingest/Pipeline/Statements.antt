-- ===== src/Ingest/Pipeline/Statements.antt =====
-- The statements that src/ingest/pipeline.ts makes on a table, which is the list of its rows in the
-- order of their insertion, and the SQL functions in them. NULL is `none`.
pub mod Laws
use hop_watch.Prelude.{
  ℕ, zero, suc, max, min, String, Bool, true, false, Option, none, some, List, [], ◌∷◌, ◌++◌,
  str_eq, if◌then◌else◌, any,
}
use hop_watch.Prelude.Int.{ℤ, leb_ℤ}

module _ {ℓ} {A : Type ℓ} where
  -- `COALESCE(a, b)`.
  abbrev pub coalesce : Option A → Option A → Option A
  coalesce none b = b
  coalesce (some a) b = some a

  -- `UPDATE … SET patch WHERE hit`.
  abbrev pub update_where : (A → Bool) → (A → A) → List A → List A
  update_where hit patch [] = []
  update_where hit patch (r ∷ rs) = (if hit r then patch r else r) ∷ update_where hit patch rs

  abbrev pub count_where : (A → Bool) → List A → ℕ
  count_where hit [] = 0
  count_where hit (r ∷ rs) = if hit r then suc (count_where hit rs) else count_where hit rs

  abbrev pub find_row : (A → Bool) → List A → Option A
  find_row hit [] = none
  find_row hit (r ∷ rs) = if hit r then some r else find_row hit rs

  -- `INSERT … ON DUPLICATE KEY UPDATE patch`, where `hit` says which row has the new row's key.
  abbrev pub upsert : (A → Bool) → (A → A) → A → List A → List A
  upsert hit patch fresh [] = fresh ∷ []
  upsert hit patch fresh (r ∷ rs) = if hit r then patch r ∷ rs else r ∷ upsert hit patch fresh rs

  -- `INSERT IGNORE`, with whether a row was inserted.
  abbrev pub insert_ignore : (A → Bool) → A → List A → List A × Bool
  insert_ignore hit fresh rows = if any hit rows then (rows, false) else (rows ++ fresh ∷ [], true)

-- `LEAST(a, b)` and `GREATEST(a, b)`, NULL if either is.
unfoldable pub least_time : Option ℕ → Option ℕ → Option ℕ
least_time (some a) (some b) = some (min a b)
least_time _ _ = none

unfoldable pub greatest_time : Option ℕ → Option ℕ → Option ℕ
greatest_time (some a) (some b) = some (max a b)
greatest_time _ _ = none

unfoldable pub least_value : Option ℤ → Option ℤ → Option ℤ
least_value (some a) (some b) = some (if leb_ℤ a b then a else b)
least_value _ _ = none

unfoldable pub greatest_value : Option ℤ → Option ℤ → Option ℤ
greatest_value (some a) (some b) = some (if leb_ℤ a b then b else a)
greatest_value _ _ = none

-- `NULLIF(v, '')` of a value that may be missing.
unfoldable pub null_if_blank : Option String → Option String
null_if_blank none = none
null_if_blank (some s) = if str_eq s "" then none else some s

-- `s.slice(0, n)`, in code points.
abbrev pub slice_text : ℕ → String → String
slice_text zero s = String.[]
slice_text (suc n) String.[] = String.[]
slice_text (suc n) (String.◌∷◌ c s) = String.◌∷◌ c (slice_text n s)

-- `test ? 1 : 0`.
abbrev pub one_if : Bool → ℕ
one_if b = if b then 1 else 0
