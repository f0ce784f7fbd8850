-- ===== src/Live/Hub/Stall.antt =====
-- What a poll of src/lib/livehub.ts sends, and when it sends nothing.
use hop_watch.Prelude.{
  ◌*◌, ◌≤◌, ◌≡◌, refl, ap, ◌∙◌, Bool, true, some, List, [], ◌∷◌, ◌++◌, arith, ltb, ltb→lt, if-cases,
  length, take, filter, all, take-append,
}
use hop_watch.Live.Hub.{
  LiveEvent, Hub, page_size, lookback_ids, live_events_since, has, window_floor, fan_out,
  fan_out_all, retire, poll,
}

filter-append :
    (p : LiveEvent → Bool) (xs ys : List LiveEvent)
    → filter p (xs ++ ys) ≡ filter p xs ++ filter p ys
filter-append p [] ys = refl
filter-append p (x ∷ xs) ys = ground (arith, filter-append p xs ys)

fan_out_same : (e : LiveEvent) (h : Hub) → has e.id h.delivered ≡ true → fan_out e h ≡ (h, true)
unfolding fan_out
fan_out_same e h d = ground arith

fan_out_all_same :
    (es : List LiveEvent) (h : Hub)
    → all (λ e. has e.id h.delivered) es ≡ true
    → fan_out_all es h ≡ (h, true)
unfolding fan_out_all
fan_out_all_same [] h d = refl
fan_out_all_same (e ∷ es) h d =
    rw (fan_out_same e h (ground arith)) (rw (fan_out_all_same es h (ground arith)) refl)

-- Once the first 500 events of the window are all delivered, and no more ids are remembered than
-- the hub keeps, every poll sends nothing and changes nothing, whatever newer events the table has
-- gained: they are never read.
pub poll_stalls :
    (h : Hub) (table newer : List LiveEvent)
    → page_size ≤ length (filter (λ e. ltb (window_floor h) e.id) table)
    → all (λ e. has e.id h.delivered) (live_events_since (window_floor h) table) ≡ true
    → length h.delivered ≤ 2 * lookback_ids
    → poll (some (table ++ newer)) h ≡ h
unfolding poll live_events_since retire
poll_stalls h table newer full d few =
    rw (same_page, fan_out_all_same _ h d)
      (if-cases (λ h'. h' ≡ h) (ltb (lookback_ids * 2) (length h.delivered))
        (λ over. absurd (let o = ltb→lt _ _ over in omega arith)) (λ _. refl))
  where
    same_page :
        live_events_since (window_floor h) (table ++ newer)
        ≡ live_events_since (window_floor h) table
    same_page =
        ap (take page_size) (filter-append (λ e. ltb (window_floor h) e.id) table newer)
        ∙ take-append page_size _ _ full
