-- ===== src/Meshtastic/Decrypt/Tests.antt =====
-- The opening of payloads, src/meshtastic/decode.ts and src/meshtastic/crypto.ts, on concrete
-- packets. The test cipher adds one to each byte; the decoder of the tests reads a port and a
-- payload.
use hop_watch.Prelude.{
  ℕ, zero, suc, ◌%◌, ◌≡◌, refl, sym, ap, subst, ◌∙◌, ◌≢◌, ◌⊎◌, true, false, Option, none, some,
  List, [], ◌∷◌, map, arith, length,
}
use mathlib.Core.List.{Memᴰ}
use mathlib.Core.List.Memᴰ.{head, tail}
use hop_watch.Prelude.Int.{pos}
use hop_watch.Meshtastic.Crypto.{
  Cipher, expand_key, channel_hash, decrypt_payload, encrypt_payload, algo_of,
}
use hop_watch.Meshtastic.Crypto.Keys.{expand_key-fits, key_bytes}
use hop_watch.Meshtastic.Decrypt.{
  WireData, InnerData, ChannelKey, Opened, Sealed, Packet, encrypted, try_decrypt, attach_payload,
  candidate_of, normalize_data, matching, attempt, plain_of, accept_data, is_pki, keep_cipher,
  open_into, ok_to_mqtt_of, port_known,
}
use hop_watch.Meshtastic.Decrypt.Hit.{try_decrypt-IsHit, IsHit}
use hop_watch.Meshtastic.Decrypt.Attached.{
  attach_payload_sealed, attach_payload_approved, Closed, OpenedBy,
}
use hop_watch.Meshtastic.Decrypt.Round.{seal, try_decrypt_round, Symmetric}

abbrev before : ℕ → ℕ
before zero = 0
before (suc x) = x

abbrev shift : Cipher
shift = record {
  decipher = λ a key at enc. some (map before enc);
  encipher = λ a key at plain. some (map suc plain);
}

shift-Symmetric : Symmetric shift
shift-Symmetric a key at plain enc e =
    ap some (subst (λ ys. map before ys ≡ plain) (some_inj e) (back plain))
  where
    back : (xs : List ℕ) → map before (map suc xs) ≡ xs
    back [] = refl
    back (x ∷ xs) = ap (◌∷◌ x) (back xs)

    some_inj : some (map suc plain) ≡ some enc → map suc plain ≡ enc
    some_inj h = ap (λ (o : Option (List ℕ)). elim o [ none ↦ enc | some y ↦ y ]) h

abbrev read_data : List ℕ → Option WireData
read_data [] = none
read_data (port ∷ body) = some (record {
  portnum = some (pos port);
  payload = some body;
  bitfield = some 1;
  want_response = false;
})

-- LongFast and Admin, with the default key and a short key.
abbrev long_fast : ChannelKey
long_fast = record { name = 76 ∷ 111 ∷ 110 ∷ 103 ∷ 70 ∷ 97 ∷ 115 ∷ 116 ∷ []; key = 1 ∷ [] }

abbrev admin : ChannelKey
admin = record { name = 97 ∷ 100 ∷ 109 ∷ 105 ∷ 110 ∷ []; key = 7 ∷ 8 ∷ [] }

abbrev hello : Sealed
hello = record { bytes = 2 ∷ 105 ∷ 106 ∷ []; packet_id = 77; from = 5 }

abbrev opened_hello : Opened
opened_hello = record {
  inner = record { portnum = pos 1; payload = 104 ∷ 105 ∷ []; bitfield = 1 };
  key_name = 76 ∷ 111 ∷ 110 ∷ 103 ∷ 70 ∷ 97 ∷ 115 ∷ 116 ∷ [];
}

abbrev held : Option ℕ → Packet
held channel = record {
  mesh_packet_id = 77;
  from = 5;
  channel = channel;
  channel_is_hash = false;
  ok_to_mqtt = false;
  pki_encrypted = false;
  encrypted = none;
  cipher_text = none;
  decoded = none;
}

-- The hash that the firmware gives the default channel, LongFast, is 8.
long_fast_hash : (candidate_of long_fast).hash ≡ 8
unfolding candidate_of channel_hash expand_key
long_fast_hash = refl

hello_opened :
    try_decrypt shift read_data hello (admin ∷ long_fast ∷ []) (some 8) ≡ some opened_hello
unfolding try_decrypt matching candidate_of channel_hash expand_key attempt plain_of decrypt_payload
    accept_data normalize_data
hello_opened = refl

-- A byte of no configured channel: the first key whose plaintext has a payload.
hello_guessed :
    try_decrypt shift read_data hello (long_fast ∷ admin ∷ []) (some 9) ≡ some opened_hello
unfolding try_decrypt matching candidate_of channel_hash expand_key attempt plain_of decrypt_payload
    accept_data normalize_data
hello_guessed = refl

-- A matching key that fails leaves the packet closed.
closed_by_hash :
    try_decrypt shift read_data (record hello { bytes = 1 ∷ [] }) (long_fast ∷ admin ∷ []) (some 8)
    ≡ none
unfolding try_decrypt matching candidate_of channel_hash expand_key attempt plain_of decrypt_payload
    accept_data normalize_data
closed_by_hash = refl

try_decrypt-IsHit_example :
    IsHit shift read_data hello (admin ∷ long_fast ∷ []) (some 8) opened_hello
try_decrypt-IsHit_example =
    try_decrypt-IsHit shift read_data hello (admin ∷ long_fast ∷ []) (some 8) opened_hello
      hello_opened

apart : (k : ChannelKey) → Memᴰ k (admin ∷ []) → (candidate_of k).hash ≢ 8
unfolding candidate_of channel_hash expand_key
apart k (head e) h = absurd (differ (ap (λ z. (candidate_of z).hash) (sym e) ∙ h))
  where
    differ : (candidate_of admin).hash ≢ 8
    differ x = omega (arith, x)
apart k (tail m) h = elim m [ ]

try_decrypt_round_example :
    try_decrypt shift read_data hello (admin ∷ long_fast ∷ []) (some 8) ≡ some opened_hello
unfolding candidate_of channel_hash expand_key normalize_data seal encrypt_payload port_known
try_decrypt_round_example =
    try_decrypt_round shift read_data long_fast (admin ∷ []) [] hello (1 ∷ 104 ∷ 105 ∷ [])
      (record {
        portnum = some (pos 1);
        payload = some (104 ∷ 105 ∷ []);
        bitfield = some 1;
        want_response = false;
      })
      shift-Symmetric apart refl refl refl

attach_payload_sealed_example :
    let r =
      attach_payload shift read_data
        (held (some 8))
        (encrypted (2 ∷ 105 ∷ []))
        (admin ∷ long_fast ∷ [])
        (some "LongFast") in
    (r.0.cipher_text ≡ some (2 ∷ 105 ∷ []))
    × (r.0.channel_is_hash ≡ true)
    × (Closed shift read_data (2 ∷ 105 ∷ []) (held (some 8)) r
        ⊎ ((is_pki shift read_data (held (some 8)) (some "LongFast") ≡ false)
            × (hit : Opened) × OpenedBy shift read_data
                (2 ∷ 105 ∷ [])
                (held (some 8))
                (admin ∷ long_fast ∷ [])
                r
                hit))
attach_payload_sealed_example =
    attach_payload_sealed shift read_data (2 ∷ 105 ∷ []) (held (some 8)) (admin ∷ long_fast ∷ [])
      (some "LongFast")

attach_payload_approved_example :
    (d : InnerData) × ((attach_payload shift read_data
        (held (some 8))
        (encrypted (2 ∷ 105 ∷ []))
        (long_fast ∷ [])
        (some "LongFast")).0.decoded
      ≡ some d)
    × (d.bitfield % 2 ≡ 1)
unfolding attach_payload is_pki keep_cipher open_into ok_to_mqtt_of try_decrypt matching
    candidate_of channel_hash expand_key attempt plain_of decrypt_payload accept_data normalize_data
attach_payload_approved_example =
    attach_payload_approved shift read_data (held (some 8)) (encrypted (2 ∷ 105 ∷ []))
      (long_fast ∷ []) (some "LongFast") refl refl

abbrev padded : List ℕ
padded = 7 ∷ 8 ∷ 0 ∷ 0 ∷ 0 ∷ 0 ∷ 0 ∷ 0 ∷ 0 ∷ 0 ∷ 0 ∷ 0 ∷ 0 ∷ 0 ∷ 0 ∷ 0 ∷ []

expand_key-fits_example : length padded ≡ key_bytes (algo_of padded)
unfolding expand_key
expand_key-fits_example = expand_key-fits (7 ∷ 8 ∷ []) padded refl
