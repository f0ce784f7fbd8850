-- ===== src/Live/Hub.antt =====
-- The tail of the table of live events, src/lib/livehub.ts. All subscribers are sent the same
-- events, so one log stands for what each of them is sent. The guard against overlapping polls is
-- taken for granted: a poll is one step.
pub mod Once
pub mod Stall
pub mod Delivers
mod Tests
use hop_watch.Prelude.{
  ℕ, ◌+◌, ◌-◌, ◌*◌, max, String, Bool, true, false, ◌||◌, Option, none, some, List, [], ◌∷◌, ◌++◌,
  ltb, leb, ◌==◌, if◌then◌else◌, length, take, filter, any,
}

-- A row of the table: the payload is `none` where it does not parse.
pub record LiveEvent : Type 0 where
  pub id : ℕ
  pub payload : Option String

pub record Hub : Type 0 where
  pub cursor : ℕ
  pub floor_id : ℕ
  pub delivered : List ℕ
  pub started : Bool
  pub subs : ℕ
  pub log : List ℕ

abbrev pub lookback_ids : ℕ
lookback_ids = 2000

abbrev pub page_size : ℕ
page_size = 500

-- `WHERE id > ? ORDER BY id ASC LIMIT 500`, on a table in the order of its ids.
unfoldable pub live_events_since : ℕ → List LiveEvent → List LiveEvent
live_events_since from table = take page_size (filter (λ e. ltb from e.id) table)

unfoldable pub has : ℕ → List ℕ → Bool
has i = any (λ j. j == i)

-- The lowest id of the next page, less one; the same bound keeps the delivered ids.
unfoldable pub window_floor : Hub → ℕ
window_floor h = max h.floor_id (h.cursor - lookback_ids)

-- One event, and whether the poll goes on: a payload that does not parse ends it.
unfoldable pub fan_out : LiveEvent → Hub → Hub × Bool
unfolding has
fan_out e h =
    if leb e.id h.floor_id || has e.id h.delivered
    then (h, true)
    else let h' : Hub = record h { delivered = e.id ∷ h.delivered; cursor = max h.cursor e.id } in
      elim e.payload [
        | none ↦ (h', false)
        | some p ↦ (record h' { log = h'.log ++ e.id ∷ [] }, true)
      ]

unfoldable pub fan_out_all : List LiveEvent → Hub → Hub × Bool
unfolding fan_out
fan_out_all [] h = (h, true)
fan_out_all (e ∷ es) h =
    let (h', on) = fan_out e h in let rest = fan_out_all es h' in if on then rest else (h', false)

-- Ids that have fallen out of the window are retired once there are many.
unfoldable pub retire : Hub → Hub
unfolding window_floor
retire h =
    if ltb (lookback_ids * 2) (length h.delivered)
    then record h { delivered = filter (λ i. ltb (window_floor h) i) h.delivered }
    else h

-- One poll of the table; where the database fails nothing happens.
unfoldable pub poll : Option (List LiveEvent) → Hub → Hub
unfolding window_floor live_events_since fan_out_all retire
poll none h = h
poll (some table) h =
    let (h', on) = fan_out_all (live_events_since (window_floor h) table) h in
    if on then retire h' else h'

-- The highest id in the table is `none` where the database fails.
unfoldable pub subscribe_live : Option ℕ → Hub → Hub
subscribe_live max_id h =
    let start : ℕ = elim max_id [ none ↦ 0 | some m ↦ m ] in
    let h' : Hub =
      if h.started
      then h
      else record h { started = true; cursor = start; floor_id = start; delivered = [] } in
    record h' { subs = h'.subs + 1 }

unfoldable pub unsubscribe_live : Hub → Hub
unsubscribe_live h = record h {
  subs = h.subs - 1;
  started = if leb h.subs 1 then false else h.started;
}
