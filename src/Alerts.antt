-- ===== src/Alerts.antt =====
-- Open alerts and what fires, the function reconcile of src/worker/alerts.ts. The table of alerts is
-- the list of its rows; dispatching a notification is not modelled, only how many there are.
pub mod Reconciled
mod Tests
use hop_watch.Prelude.{
  ℕ, String, Bool, true, false, not, ◌&&◌, List, [], ◌∷◌, ◌++◌, str_eq, if◌then◌else◌, length,
  filter, any,
}

pub record AlertRow : Type 0 where
  pub rule_id : String
  pub fired_key : String
  pub resolved : Bool

abbrev pub has_key : String → List String → Bool
has_key k = any (λ j. str_eq j k)

-- `WHERE rule_id = ? AND resolved_at IS NULL`.
abbrev pub is_open_of : String → AlertRow → Bool
is_open_of rule r = str_eq r.rule_id rule && not r.resolved

unfoldable pub open_keys : String → List AlertRow → List String
open_keys rule [] = []
open_keys rule (r ∷ rs) =
    if is_open_of rule r then r.fired_key ∷ open_keys rule rs else open_keys rule rs

-- A row for each firing key that is not open.
unfoldable pub insert_fired : String → List String → List String → List AlertRow → List AlertRow
insert_fired rule opened [] rows = rows
insert_fired rule opened (f ∷ fs) rows = insert_fired rule opened fs (
    if has_key f opened
    then rows
    else rows ++ record { rule_id = rule; fired_key = f; resolved = false } ∷ [])

unfoldable pub count_fired : List String → List String → ℕ
count_fired opened fs = length (filter (λ f. not (has_key f opened)) fs)

-- `UPDATE alerts SET resolved_at ... WHERE rule_id = ? AND fired_key = ? AND resolved_at IS NULL`.
unfoldable pub resolve_key : String → String → List AlertRow → List AlertRow
resolve_key rule key [] = []
resolve_key rule key (r ∷ rs) =
    (if is_open_of rule r && str_eq r.fired_key key then record r { resolved = true } else r)
    ∷ resolve_key rule key rs

unfoldable pub resolve_gone : String → List String → List String → List AlertRow → List AlertRow
unfolding resolve_key
resolve_gone rule firing [] rows = rows
resolve_gone rule firing (k ∷ ks) rows =
    resolve_gone rule firing ks (if not (has_key k firing) then resolve_key rule k rows else rows)

-- The rows after it, and the number of notifications.
unfoldable pub reconcile : Bool → String → List String → List AlertRow → List AlertRow × ℕ
unfolding open_keys insert_fired count_fired resolve_gone
reconcile one_shot rule firing rows =
    let opened = open_keys rule rows in
    let inserted = insert_fired rule opened firing rows in
    (
      if not one_shot then resolve_gone rule firing opened inserted else inserted,
      count_fired opened firing,
    )
