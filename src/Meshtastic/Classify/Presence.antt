-- ===== src/Meshtastic/Classify/Presence.antt =====
-- What a zero in the wire header comes to in the classification: src/meshtastic/decode.ts
-- (buildPacketFields) followed by src/meshtastic/classify.ts.
use hop_watch.Prelude.{◌≡◌, ◌≢◌, false, arith}
use hop_watch.Prelude.Int.{pos}
use hop_watch.Meshtastic.Classify.{
  mqtt_injected, unknown, classify_reception, is_rf_reception, RawHeader, facts_of,
}

-- A header whose signal strength and signal ratio are both zero, as in a copy that was injected
-- over MQTT, is never taken for a reception over the air; one whose hop start is zero, as old
-- firmware leaves it, is never confirmed direct and never inconsistent.
pub zero_fields :
    (h : RawHeader)
    → (h.rssi_raw ≡ pos 0
        → h.snr_raw ≡ pos 0
        → is_rf_reception (classify_reception (facts_of h)) ≡ false)
      × (h.hop_start_raw ≡ 0
          → ((classify_reception (facts_of h)).is_confirmed_direct ≡ false)
            × ((classify_reception (facts_of h)).cls ≢ unknown))
      × (h.rssi_raw ≢ pos 0
          → h.gateway ≢ h.sender
          → (classify_reception (facts_of h)).cls ≢ mqtt_injected)
unfolding classify_reception is_rf_reception facts_of
zero_fields h = (λ r s. ground arith, λ z. (ground arith, λ e. ground arith), λ r g e. ground arith)
