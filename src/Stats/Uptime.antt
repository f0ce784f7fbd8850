-- ===== src/Stats/Uptime.antt =====
-- Reboots in a series of uptime readings, src/lib/uptime.ts. Readings are whole seconds.
pub mod Steady
use hop_watch.Prelude.{
  ℕ, ◌+◌, String, Bool, false, Option, none, some, List, [], ◌∷◌, ltb, if◌then◌else◌,
}

pub record UptimePoint : Type 0 where
  pub observed_at : String
  pub value : ℕ

pub record DeviceUptimeSummary : Type 0 where
  pub current_s : Option ℕ
  pub reboots : ℕ
  pub last_reboot_at : Option String
  pub longest_run_s : ℕ

-- `i > 0 && v < points[i - 1].value - 60`.
abbrev pub has_reset : Option ℕ → ℕ → Bool
has_reset none v = false
has_reset (some before) v = ltb (v + 60) before

-- One round of the loop; the summary's `current_s` is the reading before it.
unfoldable pub read_point : UptimePoint → DeviceUptimeSummary → DeviceUptimeSummary
read_point p s =
    let reset = has_reset s.current_s p.value in
    record {
      current_s = some p.value;
      reboots = if reset then s.reboots + 1 else s.reboots;
      last_reboot_at = if reset then some p.observed_at else s.last_reboot_at;
      longest_run_s = if ltb s.longest_run_s p.value then p.value else s.longest_run_s;
    }

unfoldable pub read_points : List UptimePoint → DeviceUptimeSummary → DeviceUptimeSummary
unfolding read_point
read_points [] s = s
read_points (p ∷ ps) s = read_points ps (read_point p s)

unfoldable pub summarize_device_uptime : List UptimePoint → DeviceUptimeSummary
unfolding read_points
summarize_device_uptime points =
    read_points points
      (record { current_s = none; reboots = 0; last_reboot_at = none; longest_run_s = 0 })
