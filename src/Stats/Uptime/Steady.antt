-- ===== src/Stats/Uptime/Steady.antt =====
-- What a summary of src/lib/uptime.ts says of its readings.
use hop_watch.Prelude.{◌≤◌, List, [], ◌∷◌, arith, All}
use hop_watch.Stats.Uptime.{
  UptimePoint, DeviceUptimeSummary, read_point, read_points, summarize_device_uptime,
}

read_points_grow :
    (ps : List UptimePoint) (s : DeviceUptimeSummary)
    → s.longest_run_s ≤ (read_points ps s).longest_run_s
unfolding read_points read_point
read_points_grow [] s = omega arith
read_points_grow (p ∷ ps) s = (let g = read_points_grow ps (read_point p s) in ground arith)

read_points_longest :
    (ps : List UptimePoint) (s : DeviceUptimeSummary)
    → All (λ p. p.value ≤ (read_points ps s).longest_run_s) ps
unfolding read_points read_point
read_points_longest [] s = tt
read_points_longest (p ∷ ps) s = (
  (let g = read_points_grow ps (read_point p s) in ground arith),
  read_points_longest ps (read_point p s),
)

-- No reading of the series exceeds the longest run of its summary.
pub summarize_device_uptime_longest :
    (points : List UptimePoint)
    → All (λ p. p.value ≤ (summarize_device_uptime points).longest_run_s) points
unfolding summarize_device_uptime
summarize_device_uptime_longest points = read_points_longest points _
