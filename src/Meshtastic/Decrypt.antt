-- ===== src/Meshtastic/Decrypt.antt =====
-- How an encrypted packet is opened, src/meshtastic/decode.ts (tryDecrypt, attachPayload) and
-- src/meshtastic/portnum.ts. The cipher and the protobuf runtime's decoding of a Data message are
-- parameters, the latter `none` where it throws. What parsePayload reads out of a payload and the
-- port's name are left out of the normalized data.
pub mod Hit
pub mod Round
pub mod Attached
mod Tests
use hop_watch.Prelude.{
  ℕ, ◌%◌, String, Bool, true, false, not, ◌&&◌, ◌||◌, Option, none, some, List, [], ◌∷◌, map,
  str_eq, ◌==◌, if◌then◌else◌, length, filter, any,
}
use hop_watch.Prelude.Int.{negsuc, ℤ, pos, leb_ℤ}
use hop_watch.Meshtastic.Crypto.{expand_key, Cipher, channel_hash, decrypt_payload}

-- A decoded Data message. `undefined` is `none`.
pub record WireData : Type 0 where
  pub portnum : Option ℤ
  pub payload : Option (List ℕ)
  pub bitfield : Option ℕ
  pub want_response : Bool

pub record InnerData : Type 0 where
  pub portnum : ℤ
  pub payload : List ℕ
  pub bitfield : ℕ

-- `??`.
abbrev pub value_or {ℓ} : {A : Type ℓ} → Option A → A → A
value_or none d = d
value_or (some x) d = x

unfoldable pub normalize_data : WireData → InnerData
normalize_data d = record {
  portnum = value_or d.portnum (pos 0);
  payload = value_or d.payload [];
  bitfield = value_or d.bitfield 0;
}

unfoldable pub ok_to_mqtt_of : InnerData → Bool
ok_to_mqtt_of d = d.bitfield % 2 == 1

-- The keys of PORT_NAMES.
abbrev port_numbers : List ℕ
port_numbers =
    0 ∷ 1 ∷ 2 ∷ 3 ∷ 4 ∷ 5 ∷ 6 ∷ 7 ∷ 8 ∷ 9 ∷ 10 ∷ 11 ∷ 12 ∷ 13 ∷ 32 ∷ 33 ∷ 34 ∷ 35 ∷ 36 ∷ 37 ∷ 64
    ∷ 65 ∷ 66 ∷ 67 ∷ 68 ∷ 69 ∷ 70 ∷ 71 ∷ 72 ∷ 73 ∷ 74 ∷ 75 ∷ 76 ∷ 77 ∷ 78 ∷ 79 ∷ 112 ∷ 256 ∷ 257
    ∷ []

-- `portnum in PORT_NAMES`.
has_port_name : ℤ → Bool
has_port_name (pos n) = any (λ p. p == n) port_numbers
has_port_name (negsuc n) = false

-- `portnum < 1 || portnum > 511` does not hold.
unfoldable pub port_known : ℤ → Bool
port_known n = leb_ℤ (pos 1) n && leb_ℤ n (pos 511)

is_filled : Option (List ℕ) → Bool
is_filled none = false
is_filled (some []) = false
is_filled (some (b ∷ bytes)) = true

-- What the strict test asks for beyond the firmware's.
pub strict_ok : WireData → Bool
unfolding has_port_name is_filled
strict_ok d = is_filled d.payload || (has_port_name (value_or d.portnum (pos 0)) && d.want_response)

pub record ChannelKey : Type 0 where
  pub name : List ℕ
  pub key : List ℕ

pub record KeyCandidate : Type 0 where
  pub name : List ℕ
  pub expanded : Option (List ℕ)
  pub hash : ℕ

unfoldable pub candidate_of : ChannelKey → KeyCandidate
candidate_of k = record {
  name = k.name;
  expanded = expand_key k.key;
  hash = channel_hash k.name (expand_key k.key);
}

pub record Opened : Type 0 where
  pub inner : InnerData
  pub key_name : List ℕ

pub data PayloadVariant : Type 0 where
  decoded : WireData → PayloadVariant
  encrypted : List ℕ → PayloadVariant
  other : PayloadVariant

-- The fields of a packet that the opening of its payload reads or writes.
pub record Packet : Type 0 where
  pub mesh_packet_id : ℕ
  pub from : ℕ
  pub channel : Option ℕ
  pub channel_is_hash : Bool
  pub ok_to_mqtt : Bool
  pub pki_encrypted : Bool
  pub encrypted : Option (List ℕ)
  pub cipher_text : Option (List ℕ)
  pub decoded : Option InnerData

-- What is received: the ciphertext with the numbers of its packet.
pub record Sealed : Type 0 where
  pub bytes : List ℕ
  pub packet_id : ℕ
  pub from : ℕ

module _ (cipher : Cipher) (decode_data : List ℕ → Option WireData) where
  -- A channel without a key carries plaintext.
  unfoldable pub plain_of : Sealed → KeyCandidate → Option (List ℕ)
  plain_of s c = elim c.expanded [
    | none ↦ some s.bytes
    | some key ↦ decrypt_payload cipher s.bytes key s.packet_id s.from
  ]

  -- The tests on what the protobuf runtime made of the plaintext.
  unfoldable pub accept_data : Bool → KeyCandidate → WireData → Option Opened
  unfolding port_known strict_ok
  accept_data strict c d =
      if not (port_known (value_or d.portnum (pos 0)))
      then none
      else if strict && not (strict_ok d)
      then none
      else some (record { inner = normalize_data d; key_name = c.name })

  unfoldable pub attempt : Bool → Sealed → KeyCandidate → Option Opened
  attempt strict s c = elim (plain_of s c) [
    | none ↦ none
    | some plain ↦ elim (decode_data plain) [ none ↦ none | some d ↦ accept_data strict c d ]
  ]

  -- `for (const c of cs)`, to the first hit.
  pub first_hit : Bool → Sealed → List KeyCandidate → Option Opened
  first_hit strict s [] = none
  first_hit strict s (c ∷ cs) = elim (attempt strict s c) [
    | none ↦ first_hit strict s cs
    | some hit ↦ some hit
  ]

  unfoldable pub matching : Option ℕ → List KeyCandidate → List KeyCandidate
  matching none cs = []
  matching (some byte) cs = filter (λ c. c.hash == byte) cs

  -- `matching.length > 0` wins over guessing.
  pub try_matching : Sealed → List KeyCandidate → List KeyCandidate → Option Opened
  unfolding first_hit
  try_matching s cs [] = first_hit true s cs
  try_matching s cs (m ∷ ms) = first_hit false s (m ∷ ms)

  unfoldable pub try_decrypt : Sealed → List ChannelKey → Option ℕ → Option Opened
  unfolding try_matching
  try_decrypt s keys channel_byte =
      try_matching s (map candidate_of keys) (matching channel_byte (map candidate_of keys))

  -- The fields that the encrypted variant sets before any key is tried.
  unfoldable pub keep_cipher : List ℕ → Packet → Packet
  keep_cipher enc p = record p { channel_is_hash = true; cipher_text = some enc }

  unfoldable pub open_into : List ℕ → Packet → Option Opened → Packet × Option (List ℕ)
  open_into enc p none = (record p { encrypted = some enc }, none)
  open_into enc p (some hit) = (
    record p { decoded = some hit.inner; ok_to_mqtt = ok_to_mqtt_of hit.inner },
    some hit.key_name,
  )

  -- Whether the payload is sealed for one node: `pkiEncrypted || channelId === "PKI"`.
  unfoldable pub is_pki : Packet → Option String → Bool
  is_pki p none = p.pki_encrypted
  is_pki p (some id) = p.pki_encrypted || str_eq id "PKI"

  pub sealed_of : List ℕ → Packet → Sealed
  sealed_of enc p = record { bytes = enc; packet_id = p.mesh_packet_id; from = p.from }

  -- The packet and the name of the channel whose key opened it.
  unfoldable pub attach_payload :
      Packet → PayloadVariant → List ChannelKey → Option String → Packet × Option (List ℕ)
  unfolding sealed_of
  attach_payload p (decoded d) keys channel_id = (
    record p { decoded = some (normalize_data d); ok_to_mqtt = ok_to_mqtt_of (normalize_data d) },
    none,
  )
  attach_payload p (encrypted enc) keys channel_id =
      if is_pki p channel_id
      then (record (keep_cipher enc p) { encrypted = some enc }, none)
      else open_into enc (keep_cipher enc p) (try_decrypt (sealed_of enc p) keys p.channel)
  attach_payload p other keys channel_id = (p, none)
