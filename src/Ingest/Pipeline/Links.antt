-- ===== src/Ingest/Pipeline/Links.antt =====
-- What a gateway has heard of a node, the rows of gateway_node_link: upsertLink of
-- src/ingest/pipeline.ts. Signal values are integers in a unit of their own.
use hop_watch.Prelude.{
  ℕ, ◌+◌, Bool, true, false, ◌&&◌, Option, none, some, List, ltb, ◌==◌, if◌then◌else◌, is_some,
}
use hop_watch.Prelude.Int.{ℤ, pos, ◌+ℤ◌, ◌*ℤ◌}
use hop_watch.Meshtastic.Classify.{
  ReceptionClass, rf_direct, rf_direct_low_conf, rf_relayed, unknown,
}
use hop_watch.Ingest.Pipeline.Statements.{
  coalesce, one_if, upsert, least_time, greatest_time, least_value, greatest_value,
}

pub data LinkStatus : Type 0 where
  direct relayed never : LinkStatus

pub record LinkRow : Type 0 where
  pub gateway_id : ℕ
  pub node_id : ℕ
  pub direct_count : ℕ
  pub relayed_count : ℕ
  pub unknown_count : ℕ
  pub first_direct_at : Option ℕ
  pub last_direct_at : Option ℕ
  pub first_relayed_at : Option ℕ
  pub last_relayed_at : Option ℕ
  pub rssi_min : Option ℤ
  pub rssi_max : Option ℤ
  pub rssi_sum : ℤ
  pub rssi_sumsq : ℤ
  pub snr_min : Option ℤ
  pub snr_max : Option ℤ
  pub snr_sum : ℤ
  pub snr_sumsq : ℤ
  pub rssi_direct_sum : ℤ
  pub rssi_direct_count : ℕ
  pub rssi_direct_min : Option ℤ
  pub rssi_direct_max : Option ℤ
  pub snr_direct_sum : ℤ
  pub snr_direct_count : ℕ
  pub last_rssi : Option ℤ
  pub last_snr : Option ℤ
  pub last_direct_rssi : Option ℤ
  pub last_direct_snr : Option ℤ
  pub last_direct_rf_at : Option ℕ
  pub snr_direct_min : Option ℤ
  pub snr_direct_max : Option ℤ
  pub last_relay_node : Option ℕ
  pub status : LinkStatus

-- The arguments of `upsertLink`.
pub record Heard : Type 0 where
  pub gateway_id : ℕ
  pub node_id : ℕ
  pub cls : ReceptionClass
  pub rssi : Option ℤ
  pub snr : Option ℤ
  pub relay : Option ℕ
  pub at : ℕ

unfoldable pub is_direct_class : ReceptionClass → Bool
is_direct_class rf_direct = true
is_direct_class _ = false

unfoldable pub is_relayed : ReceptionClass → Bool
is_relayed rf_relayed = true
is_relayed _ = false

unfoldable pub is_unknown : ReceptionClass → Bool
is_unknown rf_direct_low_conf = true
is_unknown unknown = true
is_unknown _ = false

-- `test ? v : null`.
abbrev pub only {ℓ} : {A : Type ℓ} → Bool → Option A → Option A
only b v = if b then v else none

-- `v ?? 0`, and `v != null ? v * v : 0`.
unfoldable pub or_zero : Option ℤ → ℤ
or_zero none = pos 0
or_zero (some v) = v

unfoldable pub square : Option ℤ → ℤ
square none = pos 0
square (some v) = v *ℤ v

unfoldable pub status_of : ℕ → ℕ → LinkStatus
status_of direct_count relayed_count =
    if ltb 0 direct_count then direct else if ltb 0 relayed_count then relayed else never

-- The values of the `INSERT`.
unfoldable pub link_values : Heard → LinkRow
unfolding is_direct_class is_relayed is_unknown or_zero square
link_values h =
    let d = is_direct_class h.cls in
    let r = is_relayed h.cls in
    record {
      gateway_id = h.gateway_id;
      node_id = h.node_id;
      direct_count = one_if d;
      relayed_count = one_if r;
      unknown_count = one_if (is_unknown h.cls);
      first_direct_at = only d (some h.at);
      last_direct_at = only d (some h.at);
      first_relayed_at = only r (some h.at);
      last_relayed_at = only r (some h.at);
      rssi_min = h.rssi;
      rssi_max = h.rssi;
      rssi_sum = or_zero h.rssi;
      rssi_sumsq = square h.rssi;
      snr_min = h.snr;
      snr_max = h.snr;
      snr_sum = or_zero h.snr;
      snr_sumsq = square h.snr;
      rssi_direct_sum = or_zero (only d h.rssi);
      rssi_direct_count = one_if (d && is_some h.rssi);
      rssi_direct_min = only d h.rssi;
      rssi_direct_max = only d h.rssi;
      snr_direct_sum = or_zero (only d h.snr);
      snr_direct_count = one_if (d && is_some h.snr);
      last_rssi = h.rssi;
      last_snr = h.snr;
      last_direct_rssi = only d h.rssi;
      last_direct_snr = only d h.snr;
      last_direct_rf_at = only d (some h.at);
      snr_direct_min = only d h.snr;
      snr_direct_max = only d h.snr;
      last_relay_node = h.relay;
      status = if d then direct else if r then relayed else never;
    }

-- `LEAST(COALESCE(old, new), COALESCE(new, old))`, and so for GREATEST.
unfoldable pub earlier : Option ℕ → Option ℕ → Option ℕ
unfolding least_time
earlier old new = least_time (coalesce old new) (coalesce new old)

unfoldable pub later : Option ℕ → Option ℕ → Option ℕ
unfolding greatest_time
later old new = greatest_time (coalesce old new) (coalesce new old)

unfoldable pub lower : Option ℤ → Option ℤ → Option ℤ
unfolding least_value
lower old new = least_value (coalesce old new) (coalesce new old)

unfoldable pub higher : Option ℤ → Option ℤ → Option ℤ
unfolding greatest_value
higher old new = greatest_value (coalesce old new) (coalesce new old)

-- The assignments of `ON DUPLICATE KEY UPDATE`, in their order: the last reads the new counts.
unfoldable pub merge_link : LinkRow → LinkRow → LinkRow
unfolding earlier later lower higher status_of
merge_link v o = record {
  gateway_id = o.gateway_id;
  node_id = o.node_id;
  direct_count = o.direct_count + v.direct_count;
  relayed_count = o.relayed_count + v.relayed_count;
  unknown_count = o.unknown_count + v.unknown_count;
  first_direct_at = earlier o.first_direct_at v.first_direct_at;
  last_direct_at = later o.last_direct_at v.last_direct_at;
  first_relayed_at = earlier o.first_relayed_at v.first_relayed_at;
  last_relayed_at = later o.last_relayed_at v.last_relayed_at;
  rssi_min = lower o.rssi_min v.rssi_min;
  rssi_max = higher o.rssi_max v.rssi_max;
  rssi_sum = o.rssi_sum +ℤ v.rssi_sum;
  rssi_sumsq = o.rssi_sumsq +ℤ v.rssi_sumsq;
  snr_min = lower o.snr_min v.snr_min;
  snr_max = higher o.snr_max v.snr_max;
  snr_sum = o.snr_sum +ℤ v.snr_sum;
  snr_sumsq = o.snr_sumsq +ℤ v.snr_sumsq;
  rssi_direct_sum = o.rssi_direct_sum +ℤ v.rssi_direct_sum;
  rssi_direct_count = o.rssi_direct_count + v.rssi_direct_count;
  rssi_direct_min = lower o.rssi_direct_min v.rssi_direct_min;
  rssi_direct_max = higher o.rssi_direct_max v.rssi_direct_max;
  snr_direct_sum = o.snr_direct_sum +ℤ v.snr_direct_sum;
  snr_direct_count = o.snr_direct_count + v.snr_direct_count;
  last_rssi = coalesce v.last_rssi o.last_rssi;
  last_snr = coalesce v.last_snr o.last_snr;
  last_direct_rssi = coalesce v.last_direct_rssi o.last_direct_rssi;
  last_direct_snr = coalesce v.last_direct_snr o.last_direct_snr;
  last_direct_rf_at = coalesce v.last_direct_rf_at o.last_direct_rf_at;
  snr_direct_min = lower o.snr_direct_min v.snr_direct_min;
  snr_direct_max = higher o.snr_direct_max v.snr_direct_max;
  last_relay_node = coalesce v.last_relay_node o.last_relay_node;
  status = status_of (o.direct_count + v.direct_count) (o.relayed_count + v.relayed_count);
}

abbrev pub is_link : ℕ → ℕ → LinkRow → Bool
is_link gateway node r = r.gateway_id == gateway && r.node_id == node

unfoldable pub upsert_link : Heard → List LinkRow → List LinkRow
unfolding link_values merge_link
upsert_link h rows =
    upsert (is_link h.gateway_id h.node_id) (merge_link (link_values h)) (link_values h) rows
