-- ===== src/Ingest/Pipeline/Linked.antt =====
-- What the link rows of src/ingest/pipeline.ts say of a gateway and a node.
use hop_watch.Prelude.{
  ℕ, ◌+◌, ◌≤◌, ◌≡◌, refl, false, Option, none, some, List, [], ◌∷◌, arith, ltb, if-cases, is_some,
  All,
}
use hop_watch.Ingest.Pipeline.Statements.Laws.{find_row-upsert, find_row-hit}
use hop_watch.Ingest.Pipeline.Statements.{
  least_value, least_time, greatest_value, greatest_time, one_if, coalesce, find_row,
}
use hop_watch.Prelude.Int.{negsuc, ◌+ℤ◌, ◌≤ℤ◌, ℤ, pos}
use hop_watch.Ingest.Pipeline.Links.{
  LinkRow, Heard, merge_link, earlier, status_of, lower, link_values, is_direct_class, later,
  higher, is_relayed, only, upsert_link, or_zero, is_link,
}

-- Neither is there, or both are and in order.
abbrev pub TimesInOrder : Option ℕ → Option ℕ → Type 0
TimesInOrder none none = Unit
TimesInOrder (some a) (some b) = a ≤ b
TimesInOrder _ _ = ⊥

abbrev pub ValuesInOrder : Option ℤ → Option ℤ → Type 0
ValuesInOrder none none = Unit
ValuesInOrder (some a) (some b) = a ≤ℤ b
ValuesInOrder _ _ = ⊥

-- The status is that of the counts, the direct figures count direct receptions only, and every range
-- is one.
pub record IsLink (r : LinkRow) : Type 0 where
  pub status : r.status ≡ status_of r.direct_count r.relayed_count
  pub rssi_counted : r.rssi_direct_count ≤ r.direct_count
  pub snr_counted : r.snr_direct_count ≤ r.direct_count
  pub direct_heard : is_some r.last_direct_rf_at ≡ ltb 0 r.direct_count
  pub direct_times : TimesInOrder r.first_direct_at r.last_direct_at
  pub relayed_times : TimesInOrder r.first_relayed_at r.last_relayed_at
  pub rssi_range : ValuesInOrder r.rssi_min r.rssi_max
  pub snr_range : ValuesInOrder r.snr_min r.snr_max
  pub rssi_direct_range : ValuesInOrder r.rssi_direct_min r.rssi_direct_max
  pub snr_direct_range : ValuesInOrder r.snr_direct_min r.snr_direct_max

earlier-later :
    (a b c d : Option ℕ)
    → TimesInOrder a b
    → TimesInOrder c d
    → TimesInOrder (earlier a c) (later b d)
unfolding earlier later least_time greatest_time
earlier-later none none none none h k = tt
earlier-later none none (some c) (some d) h k = ground arith
earlier-later (some a) (some b) none none h k = ground arith
earlier-later (some a) (some b) (some c) (some d) h k = ground arith
earlier-later none (some b) c d h k = absurd h
earlier-later (some a) none c d h k = absurd h
earlier-later none none none (some d) h k = absurd k
earlier-later none none (some c) none h k = absurd k
earlier-later (some a) (some b) none (some d) h k = absurd k
earlier-later (some a) (some b) (some c) none h k = absurd k

lower-higher :
    (a b c d : Option ℤ)
    → ValuesInOrder a b
    → ValuesInOrder c d
    → ValuesInOrder (lower a c) (higher b d)
unfolding lower higher least_value greatest_value
lower-higher none none none none h k = tt
lower-higher none none (some c) (some d) h k = ground arith
lower-higher (some a) (some b) none none h k = ground arith
lower-higher (some a) (some b) (some c) (some d) h k = ground arith
lower-higher none (some b) c d h k = absurd h
lower-higher (some a) none c d h k = absurd h
lower-higher none none none (some d) h k = absurd k
lower-higher none none (some c) none h k = absurd k
lower-higher (some a) (some b) none (some d) h k = absurd k
lower-higher (some a) (some b) (some c) none h k = absurd k

same_time : (v : Option ℕ) → TimesInOrder v v
same_time none = tt
same_time (some a) = omega arith

same_value : (v : Option ℤ) → ValuesInOrder v v
same_value none = tt
same_value (some a) = omega arith

heard :
    (a b : Option ℕ) (m n : ℕ)
    → is_some a ≡ ltb 0 m
    → is_some b ≡ ltb 0 n
    → is_some (coalesce a b) ≡ ltb 0 (n + m)
heard none none m n h k = ground arith
heard none (some b) m n h k = ground arith
heard (some a) b m n h k = ground arith

link_values-IsLink : (h : Heard) → IsLink (link_values h)
unfolding link_values status_of is_direct_class is_relayed
link_values-IsLink h = record {
  status =
      if-cases (λ s. s ≡ status_of (one_if (is_direct_class h.cls)) (one_if (is_relayed h.cls)))
        (is_direct_class h.cls) (λ d. rw d refl)
        (λ d. rw d (
          if-cases (λ s. s ≡ status_of 0 (one_if (is_relayed h.cls))) (is_relayed h.cls)
            (λ r. rw r refl) (λ r. rw r refl)));
  rssi_counted = ground arith;
  snr_counted = ground arith;
  direct_heard = ground arith;
  direct_times = same_time (only (is_direct_class h.cls) (some h.at));
  relayed_times = same_time (only (is_relayed h.cls) (some h.at));
  rssi_range = same_value h.rssi;
  snr_range = same_value h.snr;
  rssi_direct_range = same_value (only (is_direct_class h.cls) h.rssi);
  snr_direct_range = same_value (only (is_direct_class h.cls) h.snr);
}

merge_link-IsLink : (v o : LinkRow) → IsLink v → IsLink o → IsLink (merge_link v o)
unfolding merge_link status_of
merge_link-IsLink v o h k = record {
  status = refl;
  rssi_counted = omega arith;
  snr_counted = omega arith;
  direct_heard =
      heard v.last_direct_rf_at o.last_direct_rf_at v.direct_count o.direct_count h.direct_heard
        k.direct_heard;
  direct_times =
      earlier-later o.first_direct_at o.last_direct_at v.first_direct_at v.last_direct_at
        k.direct_times h.direct_times;
  relayed_times =
      earlier-later o.first_relayed_at o.last_relayed_at v.first_relayed_at v.last_relayed_at
        k.relayed_times h.relayed_times;
  rssi_range = lower-higher o.rssi_min o.rssi_max v.rssi_min v.rssi_max k.rssi_range h.rssi_range;
  snr_range = lower-higher o.snr_min o.snr_max v.snr_min v.snr_max k.snr_range h.snr_range;
  rssi_direct_range =
      lower-higher o.rssi_direct_min o.rssi_direct_max v.rssi_direct_min v.rssi_direct_max
        k.rssi_direct_range h.rssi_direct_range;
  snr_direct_range =
      lower-higher o.snr_direct_min o.snr_direct_max v.snr_direct_min v.snr_direct_max
        k.snr_direct_range h.snr_direct_range;
}

-- A reception of any class keeps every row's status to its counts, its direct figures to the direct
-- receptions, and its first and last times and lowest and highest values in order.
pub upsert_link-IsLink :
    (h : Heard) (rows : List LinkRow) → All IsLink rows → All IsLink (upsert_link h rows)
unfolding upsert_link
upsert_link-IsLink h [] k = (link_values-IsLink h, tt)
upsert_link-IsLink h (r ∷ rs) (k, ks) =
    if-cases (All IsLink) (is_link h.gateway_id h.node_id r)
      (λ _. (merge_link-IsLink (link_values h) r (link_values-IsLink h) k, ks))
      (λ _. (k, upsert_link-IsLink h rs ks))

-- The figures of a row that speak of direct receptions.
abbrev pub SameDirect : LinkRow → LinkRow → Type 0
SameDirect r o =
    (r.direct_count ≡ o.direct_count)
    × (r.rssi_direct_sum ≡ o.rssi_direct_sum)
    × (r.rssi_direct_count ≡ o.rssi_direct_count)
    × (r.rssi_direct_min ≡ o.rssi_direct_min)
    × (r.rssi_direct_max ≡ o.rssi_direct_max)
    × (r.snr_direct_sum ≡ o.snr_direct_sum)
    × (r.snr_direct_count ≡ o.snr_direct_count)
    × (r.snr_direct_min ≡ o.snr_direct_min)
    × (r.snr_direct_max ≡ o.snr_direct_max)
    × (r.last_direct_rssi ≡ o.last_direct_rssi)
    × (r.last_direct_snr ≡ o.last_direct_snr)
    × (r.last_direct_rf_at ≡ o.last_direct_rf_at)
    × (r.first_direct_at ≡ o.first_direct_at)
    × (r.last_direct_at ≡ o.last_direct_at)

+ℤ-zero : (a : ℤ) → a +ℤ pos 0 ≡ a
+ℤ-zero (pos n) = ground arith
+ℤ-zero (negsuc n) = ground arith

lower-none : (a : Option ℤ) → lower a none ≡ a
unfolding lower least_value
lower-none none = refl
lower-none (some a) = ground arith

higher-none : (a : Option ℤ) → higher a none ≡ a
unfolding higher greatest_value
higher-none none = refl
higher-none (some a) = ground arith

earlier-none : (a : Option ℕ) → earlier a none ≡ a
unfolding earlier least_time
earlier-none none = refl
earlier-none (some a) = ground arith

later-none : (a : Option ℕ) → later a none ≡ a
unfolding later greatest_time
later-none none = refl
later-none (some a) = ground arith

merge_link-SameDirect :
    (h : Heard) (o : LinkRow)
    → is_direct_class h.cls ≡ false
    → SameDirect (merge_link (link_values h) o) o
unfolding merge_link link_values or_zero
merge_link-SameDirect h o off = rw off (
  omega arith,
  +ℤ-zero o.rssi_direct_sum,
  omega arith,
  lower-none _,
  higher-none _,
  +ℤ-zero o.snr_direct_sum,
  omega arith,
  lower-none _,
  higher-none _,
  refl,
  refl,
  refl,
  earlier-none _,
  later-none _,
)

-- A reception that is not direct leaves what is known of the direct link of its row as it was.
pub upsert_link-SameDirect :
    (h : Heard) (rows : List LinkRow) {o : LinkRow}
    → is_direct_class h.cls ≡ false
    → find_row (is_link h.gateway_id h.node_id) rows ≡ some o
    → (r : LinkRow) × (find_row (is_link h.gateway_id h.node_id) (upsert_link h rows) ≡ some r)
      × SameDirect r o
unfolding upsert_link
upsert_link-SameDirect h rows {o} off e = (
  merge_link (link_values h) o,
  find_row-upsert (is_link h.gateway_id h.node_id) (merge_link (link_values h)) (link_values h) rows
      e (unfold merge_link in find_row-hit (is_link h.gateway_id h.node_id) rows e),
  merge_link-SameDirect h o off,
)
