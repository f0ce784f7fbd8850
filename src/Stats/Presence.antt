-- ===== src/Stats/Presence.antt =====
-- Who is online, src/lib/presence.ts: the tabs that sent a sign of life within the window, in the
-- order of a `Map`. Times are milliseconds.
use hop_watch.Prelude.{
  ℕ, suc, ◌-◌, ◌≤◌, String, ◌≡◌, refl, Bool, not, ◌||◌, List, [], ◌∷◌, arith, str_eq, ltb,
  if◌then◌else◌, length, filter, any, length-filter-le,
}

abbrev pub window_ms : ℕ
window_ms = 90000

abbrev pub max_entries : ℕ
max_entries = 5000

abbrev pub Tabs : Type 0
Tabs = List (String × ℕ)

abbrev pub is_known : String → Tabs → Bool
is_known id = any (λ e. str_eq e.0 id)

-- `Map.set`: in place for a tab that is there, at the end otherwise.
unfoldable pub set_tab : String → ℕ → Tabs → Tabs
set_tab id now [] = (id, now) ∷ []
set_tab id now ((k, t) ∷ tabs) =
    let rest = set_tab id now tabs in if str_eq k id then (k, now) ∷ tabs else (k, t) ∷ rest

-- The tabs after it; the number that is returned is their length.
unfoldable pub touch_presence : String → ℕ → Tabs → Tabs
unfolding set_tab
touch_presence id now seen =
    let active = filter (λ e. not (ltb window_ms (now - e.1))) seen in
    if is_known id active || ltb (length active) max_entries then set_tab id now active else active

length-set_tab :
    (id : String) (now : ℕ) (tabs : Tabs)
    → length (set_tab id now tabs) ≡ (if is_known id tabs then length tabs else suc (length tabs))
unfolding set_tab
length-set_tab id now [] = refl
length-set_tab id now ((k, t) ∷ tabs) = ground (arith, length-set_tab id now tabs)

-- The table of tabs never exceeds its cap.
pub touch_presence_bound :
    (id : String) (now : ℕ) (seen : Tabs)
    → length seen ≤ max_entries
    → length (touch_presence id now seen) ≤ max_entries
unfolding touch_presence
touch_presence_bound id now seen h =
    bounded (filter (λ e. not (ltb window_ms (now - e.1))) seen)
      (length-filter-le (λ e. not (ltb window_ms (now - e.1))) seen)
  where
    bounded :
        (active : Tabs)
        → length active ≤ length seen
        → length (
            if is_known id active || ltb (length active) max_entries
            then set_tab id now active
            else active)
          ≤ max_entries
    bounded active fewer = (let l = length-set_tab id now active in ground arith)
