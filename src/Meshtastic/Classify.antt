-- ===== src/Meshtastic/Classify.antt =====
-- The classification of a gateway's reception, src/meshtastic/classify.ts, and the presence of the
-- header fields that it reads, src/meshtastic/decode.ts (buildPacketFields).
-- Signal values are integers: rx_snr, a decimal in the source, is only compared with 0 and null.
pub mod Tree
pub mod Presence
mod Tests
use hop_watch.Prelude.{
  ℕ, zero, suc, Bool, true, false, not, ◌&&◌, ◌||◌, Option, none, some, ◌==◌, if◌then◌else◌,
  is_some,
}
use hop_watch.Prelude.Int.{ℤ, pos, negsuc, sub_ℕ}

pub data ReceptionClass : Type 0 where
  rf_direct rf_direct_low_conf rf_relayed mqtt_self mqtt_injected unknown : ReceptionClass

-- `null` is an absent field.
pub record ReceptionFacts : Type 0 where
  pub gateway_id : ℕ
  pub from_node_id : ℕ
  pub rx_rssi : Option ℤ
  pub rx_snr : Option ℤ
  pub hop_start : Option ℕ
  pub hop_limit : Option ℕ
  pub relay_node : Option ℕ

-- The six reason texts, the hop counts that two of them quote included.
pub data Reason : Type 0 where
  own_traffic no_rf zero_hops relay_byte tentative : Reason
  relayed inconsistent : ℤ → Reason

pub record Classification : Type 0 where
  pub cls : ReceptionClass
  pub hops_used : Option ℤ
  pub is_confirmed_direct : Bool
  pub has_rf_metadata : Bool
  pub reason : Reason

pub has_rf : ReceptionFacts → Bool
has_rf f = is_some f.rx_rssi || is_some f.rx_snr

abbrev pub verdict : ReceptionClass → Option ℤ → Bool → Bool → Reason → Classification
verdict c hops direct rf why = record {
  cls = c;
  hops_used = hops;
  is_confirmed_direct = direct;
  has_rf_metadata = rf;
  reason = why;
}

-- The third step's branches on `hopsUsed`: zero, above zero, below zero.
pub by_hops : Bool → ℤ → Classification
by_hops rf (pos zero) = verdict rf_direct (some (pos 0)) true rf zero_hops
by_hops rf (pos (suc n)) = verdict rf_relayed (some (pos (suc n))) false rf (relayed (pos (suc n)))
by_hops rf (negsuc n) = verdict unknown (some (negsuc n)) false rf (inconsistent (negsuc n))

-- `f.relayNode !== null && f.relayNode !== 0`.
pub relay_seen : Option ℕ → Bool
relay_seen none = false
relay_seen (some b) = not (b == 0)

-- The fourth step, with no hop count.
pub by_relay : Bool → Option ℕ → Classification
unfolding relay_seen
by_relay rf relay =
    if relay_seen relay
    then verdict rf_relayed none false rf relay_byte
    else verdict rf_direct_low_conf none false rf tentative

-- The third and the fourth step: a hop count wants both fields.
pub by_header : Bool → Option ℕ → Option ℕ → Option ℕ → Classification
unfolding by_hops by_relay
by_header rf (some start) (some limit) relay = by_hops rf (sub_ℕ start limit)
by_header rf (some start) none relay = by_relay rf relay
by_header rf none limit relay = by_relay rf relay

unfoldable pub classify_reception : ReceptionFacts → Classification
unfolding has_rf by_header
classify_reception f =
    if f.gateway_id == f.from_node_id
    then verdict mqtt_self none false (has_rf f) own_traffic
    else if not (has_rf f)
    then verdict mqtt_injected none false (has_rf f) no_rf
    else by_header (has_rf f) f.hop_start f.hop_limit f.relay_node

pub feeds_direct_roster : Classification → Bool
feeds_direct_roster c = elim c.cls [ rf_direct ↦ true | _ ↦ false ]

pub is_rf_reception : Classification → Bool
is_rf_reception c = elim c.cls [
  | rf_direct ↦ true
  | rf_direct_low_conf ↦ true
  | rf_relayed ↦ true
  | _ ↦ false
]

-- The header numbers as the protobuf runtime reads them: an omitted number is 0, and `undefined`
-- is `none` in the fields with a presence of their own.
pub record RawHeader : Type 0 where
  pub gateway : ℕ
  pub sender : ℕ
  pub rssi_raw : ℤ
  pub snr_raw : ℤ
  pub hop_start_raw : ℕ
  pub hop_limit_raw : Option ℕ
  pub relay_raw : Option ℕ

is_zero : ℤ → Bool
is_zero (pos zero) = true
is_zero (pos (suc n)) = false
is_zero (negsuc n) = false

-- `rssiRaw === 0 ? null : rssiRaw`.
pub present_rssi : ℤ → Option ℤ
unfolding is_zero
present_rssi r = if is_zero r then none else some r

-- `rxRssi === null && snrRaw === 0 ? null : snrRaw`.
pub present_snr : Option ℤ → ℤ → Option ℤ
unfolding is_zero
present_snr rssi s = if not (is_some rssi) && is_zero s then none else some s

-- `Number(p.hopStart ?? 0) === 0 ? null : Number(p.hopStart)`.
pub present_hop_start : ℕ → Option ℕ
present_hop_start n = if n == 0 then none else some n

-- The facts that `applyEnvelope` hands to `classifyReception`.
pub facts_of : RawHeader → ReceptionFacts
unfolding present_rssi present_snr present_hop_start
facts_of h = record {
  gateway_id = h.gateway;
  from_node_id = h.sender;
  rx_rssi = present_rssi h.rssi_raw;
  rx_snr = present_snr (present_rssi h.rssi_raw) h.snr_raw;
  hop_start = present_hop_start h.hop_start_raw;
  hop_limit = h.hop_limit_raw;
  relay_node = h.relay_raw;
}
