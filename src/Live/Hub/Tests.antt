-- ===== src/Live/Hub/Tests.antt =====
-- Polls of small tables, and the theorems at concrete values.
use hop_watch.Prelude.{
  ℕ, zero, suc, ◌<◌, ◌≡◌, refl, true, false, Option, none, some, List, [], ◌∷◌, ◌++◌, map, arith,
  All,
}
use hop_watch.Live.Hub.{
  LiveEvent, Hub, live_events_since, has, window_floor, fan_out, fan_out_all, retire, poll,
  subscribe_live,
}
use hop_watch.Live.Hub.Once.{no_repeat, poll_all, poll_all_once}
use hop_watch.Live.Hub.Delivers.{poll_delivers}
use hop_watch.Live.Hub.Stall.{poll_stalls}

abbrev event : ℕ → LiveEvent
event i = record { id = i; payload = some "{}" }

abbrev idle : Hub
idle = record { cursor = 0; floor_id = 0; delivered = []; started = false; subs = 0; log = [] }

abbrev late : List (Option (List LiveEvent))
late = some (event 12 ∷ []) ∷ none ∷ some (event 11 ∷ event 12 ∷ []) ∷ []

late_run : (poll_all late (subscribe_live (some 10) idle)).log ≡ 12 ∷ 11 ∷ []
unfolding poll_all poll subscribe_live live_events_since window_floor fan_out fan_out_all retire has
late_run = refl

poll_all_once_example : no_repeat (poll_all late (subscribe_live (some 10) idle)).log ≡ true
unfolding subscribe_live
poll_all_once_example = poll_all_once late (subscribe_live (some 10) idle) refl

poll_delivers_example :
    All
      (λ e.
        0 < e.id
        → has e.id [] ≡ false
        → has e.id (poll (some (event 3 ∷ event 4 ∷ [])) idle).log ≡ true)
      (live_events_since (window_floor idle) (event 3 ∷ event 4 ∷ []))
poll_delivers_example =
    poll_delivers idle (event 3 ∷ event 4 ∷ [])
      (unfold live_events_since window_floor in (refl, (refl, tt)))

-- The first `n` ids from `k` on.
abbrev ids : ℕ → ℕ → List ℕ
ids k zero = []
ids k (suc n) = k ∷ ids (suc k) n

abbrev full_table : List LiveEvent
full_table = map event (ids 1 500)

abbrev full_hub : Hub
full_hub = record {
  cursor = 500;
  floor_id = 0;
  delivered = ids 1 500;
  started = true;
  subs = 1;
  log = ids 1 500;
}

poll_stalls_example : poll (some (full_table ++ event 501 ∷ event 502 ∷ [])) full_hub ≡ full_hub
poll_stalls_example =
    poll_stalls full_hub full_table (event 501 ∷ event 502 ∷ [])
      (unfold window_floor in omega arith) (unfold window_floor live_events_since has in refl)
      (omega arith)
