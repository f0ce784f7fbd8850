-- ===== src/Meshtastic/Decrypt/Attached.antt =====
-- What becomes of a packet's payload, src/meshtastic/decode.ts, attachPayload.
use hop_watch.Prelude.{
  ℕ, ◌%◌, String, ◌≡◌, refl, sym, ◌∙◌, ◌⊎◌, inl, inr, true, false, Option, none, some, List, ==_iff,
  if-cases,
}
use mathlib.Core.Bool.{false≢true}
use hop_watch.Meshtastic.Crypto.{Cipher}
use hop_watch.Meshtastic.Decrypt.{
  WireData, InnerData, ChannelKey, Opened, Packet, PayloadVariant, decoded, encrypted, other,
  normalize_data, try_decrypt, is_pki, sealed_of, keep_cipher, open_into, attach_payload,
  ok_to_mqtt_of,
}
use hop_watch.Meshtastic.Decrypt.Hit.{IsHit, try_decrypt-IsHit}

module _ (cipher : Cipher) (decode_data : List ℕ → Option WireData) where
  -- The packet is left closed.
  abbrev pub Closed : List ℕ → Packet → Packet × Option (List ℕ) → Type 0
  Closed enc p (q, name) =
      (q.encrypted ≡ some enc)
      × (q.decoded ≡ p.decoded)
      × (q.ok_to_mqtt ≡ p.ok_to_mqtt)
      × (name ≡ none)

  -- A configured key opened it.
  abbrev pub OpenedBy :
      List ℕ → Packet → List ChannelKey → Packet × Option (List ℕ) → Opened → Type 0
  OpenedBy enc p keys (q, name) hit =
      IsHit cipher decode_data (sealed_of cipher decode_data enc p) keys p.channel hit
      × (q.encrypted ≡ p.encrypted)
      × (q.decoded ≡ some hit.inner)
      × (q.ok_to_mqtt ≡ ok_to_mqtt_of hit.inner)
      × (name ≡ some hit.key_name)

  abbrev Sorted :
      List ℕ → Packet → List ChannelKey → Option String → Packet × Option (List ℕ) → Type 0
  Sorted enc p keys id r =
      (r.0.cipher_text ≡ some enc)
      × (r.0.channel_is_hash ≡ true)
      × (Closed enc p r
          ⊎ ((is_pki cipher decode_data p id ≡ false) × (hit : Opened) × OpenedBy enc p keys r hit))

  open_into-Sorted :
      (enc : List ℕ) (p : Packet) (keys : List ChannelKey) (id : Option String) (o : Option Opened)
      → is_pki cipher decode_data p id ≡ false
      → try_decrypt cipher decode_data (sealed_of cipher decode_data enc p) keys p.channel ≡ o
      → Sorted enc p keys id
          (open_into cipher decode_data enc (keep_cipher cipher decode_data enc p) o)
  unfolding open_into keep_cipher
  open_into-Sorted enc p keys id none shared e = (refl, refl, inl (refl, refl, refl, refl))
  open_into-Sorted enc p keys id (some hit) shared e = (
    refl,
    refl,
    inr (
      shared,
      hit,
      (try_decrypt-IsHit cipher decode_data _ keys p.channel hit e, refl, refl, refl, refl),
    ),
  )

  -- A packet with an encrypted payload keeps its ciphertext and has its channel read as a hash,
  -- whether it is opened or not. Either it stays closed, with its data and its approval for MQTT as
  -- they were, or it is not sealed for one node and a configured key opened it as tryDecrypt's
  -- rule has it: then its data, its approval and the channel's name are those of that opening.
  -- A payload that is sealed for one node (PKI) is thus never opened with a channel's key.
  pub attach_payload_sealed :
      (enc : List ℕ) (p : Packet) (keys : List ChannelKey) (id : Option String)
      → let r = attach_payload cipher decode_data p (encrypted enc) keys id in
        (r.0.cipher_text ≡ some enc)
        × (r.0.channel_is_hash ≡ true)
        × (Closed enc p r
            ⊎ ((is_pki cipher decode_data p id ≡ false)
                × (hit : Opened) × OpenedBy enc p keys r hit))
  unfolding attach_payload keep_cipher
  attach_payload_sealed enc p keys id =
      if-cases (Sorted enc p keys id) (is_pki cipher decode_data p id)
        (λ _. (refl, refl, inl (refl, refl, refl, refl)))
        (λ h. open_into-Sorted enc p keys id _ h refl)

  -- Approval that the data bear out.
  abbrev Approved : Packet → Type 0
  Approved q = q.ok_to_mqtt ≡ true → (d : InnerData) × (q.decoded ≡ some d) × (d.bitfield % 2 ≡ 1)

  approval : (d : InnerData) → ok_to_mqtt_of d ≡ true → d.bitfield % 2 ≡ 1
  unfolding ok_to_mqtt_of
  approval d e = (==_iff (d.bitfield % 2) 1).0 e

  Approved-open :
      (enc : List ℕ) (p : Packet) (o : Option Opened)
      → p.ok_to_mqtt ≡ false
      → Approved (open_into cipher decode_data enc (keep_cipher cipher decode_data enc p) o).0
  unfolding open_into keep_cipher
  Approved-open enc p none off on = absurd (false≢true (sym off ∙ on))
  Approved-open enc p (some hit) off on = (hit.inner, refl, approval hit.inner on)

  -- A packet that comes in without approval for MQTT leaves with it only where its data are there
  -- and the lowest bit of their bitfield is set: an unopened packet is never approved.
  pub attach_payload_approved :
      (p : Packet) (v : PayloadVariant) (keys : List ChannelKey) (id : Option String)
      → p.ok_to_mqtt ≡ false
      → (attach_payload cipher decode_data p v keys id).0.ok_to_mqtt ≡ true
      → (d : InnerData) × ((attach_payload cipher decode_data p v keys id).0.decoded ≡ some d)
        × (d.bitfield % 2 ≡ 1)
  unfolding attach_payload keep_cipher
  attach_payload_approved p (decoded d) keys id off on =
      (normalize_data d, refl, approval (normalize_data d) on)
  attach_payload_approved p (encrypted enc) keys id off on =
      if-cases (λ (r : Packet × Option (List ℕ)). Approved r.0) (is_pki cipher decode_data p id)
        (λ _ on. absurd (false≢true (sym off ∙ on))) (λ _. Approved-open enc p _ off) on
  attach_payload_approved p other keys id off on = absurd (false≢true (sym off ∙ on))
