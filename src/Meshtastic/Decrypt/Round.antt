-- ===== src/Meshtastic/Decrypt/Round.antt =====
-- That a payload sealed with a configured channel key is opened again: src/meshtastic/crypto.ts,
-- encryptPayload and channelHash, with src/meshtastic/decode.ts, tryDecrypt.
use hop_watch.Prelude.{
  ℕ, ◌≡◌, refl, sym, ap, ◌∙◌, ◌≢◌, inl, inr, Bool, true, false, Option, none, some, List, [], ◌∷◌,
  ◌++◌, map, ◌==◌, ==_iff, Bool-cases, filter,
}
use hop_watch.Prelude.Int.{pos}
use mathlib.Core.List.{Memᴰ}
use mathlib.Core.List.Memᴰ.{head, tail}
use hop_watch.Meshtastic.Crypto.{Cipher, Algo, encrypt_payload, decrypt_payload}
use hop_watch.Meshtastic.Decrypt.{
  WireData, ChannelKey, KeyCandidate, Opened, Sealed, candidate_of, normalize_data, port_known,
  value_or, accept_data, attempt, first_hit, matching, try_matching, try_decrypt, plain_of,
}

-- Counter mode is symmetric: what it encrypted, it decrypts.
abbrev pub Symmetric : Cipher → Type 0
Symmetric cipher =
    (a : Algo) (key at plain enc : List ℕ)
    → cipher.encipher a key at plain ≡ some enc
    → cipher.decipher a key at enc ≡ some plain

filter_skips :
    {A : Type 0} (p : A → Bool) (x : A) (xs ys : List A)
    → ((y : A) → Memᴰ y xs → p y ≡ false)
    → p x ≡ true
    → filter p (xs ++ x ∷ ys) ≡ x ∷ filter p ys
filter_skips p x [] ys skip h = rw (h) refl
filter_skips p x (z ∷ xs) ys skip h =
    rw (skip z (head refl)) (filter_skips p x xs ys (λ y m. skip y (tail m)) h)

module _ (cipher : Cipher) (decode_data : List ℕ → Option WireData) where
  -- What a sender puts on the air: an unencrypted channel carries the plaintext itself.
  unfoldable pub seal : Option (List ℕ) → List ℕ → ℕ → ℕ → Option (List ℕ)
  seal none plain packet_id from = some plain
  seal (some key) plain packet_id from = encrypt_payload cipher plain key packet_id from

  plain_of-seal :
      (name plain : List ℕ) (key : Option (List ℕ)) (hash : ℕ) (s : Sealed)
      → Symmetric cipher
      → seal key plain s.packet_id s.from ≡ some s.bytes
      → plain_of cipher decode_data s (record { name = name; expanded = key; hash = hash })
        ≡ some plain
  unfolding seal plain_of encrypt_payload decrypt_payload
  plain_of-seal name plain none hash s law e = sym e
  plain_of-seal name plain (some key) hash s law e = law _ key _ plain s.bytes e

  plain_of-sealed :
      (c : KeyCandidate) (plain : List ℕ) (s : Sealed)
      → Symmetric cipher
      → seal c.expanded plain s.packet_id s.from ≡ some s.bytes
      → plain_of cipher decode_data s c ≡ some plain
  plain_of-sealed c plain s law e = plain_of-seal c.name plain c.expanded c.hash s law e

  accept_data-known :
      (c : KeyCandidate) (d : WireData)
      → port_known (value_or d.portnum (pos 0)) ≡ true
      → accept_data cipher decode_data false c d
        ≡ some (record { inner = normalize_data d; key_name = c.name })
  unfolding accept_data
  accept_data-known c d h = rw (h) refl

  attempt-seal :
      (k : ChannelKey) (s : Sealed) (plain : List ℕ) (d : WireData)
      → Symmetric cipher
      → seal (candidate_of k).expanded plain s.packet_id s.from ≡ some s.bytes
      → decode_data plain ≡ some d
      → port_known (value_or d.portnum (pos 0)) ≡ true
      → attempt cipher decode_data false s (candidate_of k)
        ≡ some (record { inner = normalize_data d; key_name = k.name })
  unfolding attempt candidate_of accept_data
  attempt-seal k s plain d law sealed e known =
      rw (plain_of-sealed (candidate_of k) plain s law sealed, e, attempt)
        (accept_data-known (candidate_of k) d known)

  hit_first :
      (s : Sealed) (cs ms : List KeyCandidate) (c : KeyCandidate) (hit : Opened)
      → attempt cipher decode_data false s c ≡ some hit
      → try_matching cipher decode_data s cs (c ∷ ms) ≡ some hit
  unfolding try_matching first_hit
  hit_first s cs ms c hit e = rw (e, first_hit) refl

  candidates_split :
      (k : ChannelKey) (before after : List ChannelKey)
      → map candidate_of (before ++ k ∷ after)
        ≡ map candidate_of before ++ candidate_of k ∷ map candidate_of after
  candidates_split k [] after = refl
  candidates_split k (x ∷ before) after =
      ap (◌∷◌ (candidate_of x)) (candidates_split k before after)

  others_skipped :
      (b : ℕ) (before : List ChannelKey)
      → ((k : ChannelKey) → Memᴰ k before → (candidate_of k).hash ≢ b)
      → (c : KeyCandidate) → Memᴰ c (map candidate_of before)
      → (c.hash == b) ≡ false
  others_skipped b [] other c m = elim m [ ]
  others_skipped b (k ∷ before) other c (head e) = elim (Bool-cases (c.hash == b)) [
    | inl h ↦ absurd (other k (head refl) (ap (λ z. z.hash) (sym e) ∙ (==_iff c.hash b).0 h))
    | inr h ↦ h
  ]
  others_skipped b (k ∷ before) other c (tail m) =
      others_skipped b before (λ k' m'. other k' (tail m')) c m

  -- With a symmetric cipher: a Data message on a port from 1 to 511, sealed with a configured
  -- channel's expanded key for a packet id and a sender, or sent plain on a channel without a key,
  -- and received under that channel's hash, is opened to that message under that channel's name,
  -- where no channel configured before it has the same hash.
  pub try_decrypt_round :
      (k : ChannelKey) (before after : List ChannelKey) (s : Sealed) (plain : List ℕ) (d : WireData)
      → Symmetric cipher
      → ((k' : ChannelKey) → Memᴰ k' before → (candidate_of k').hash ≢ (candidate_of k).hash)
      → seal (candidate_of k).expanded plain s.packet_id s.from ≡ some s.bytes
      → decode_data plain ≡ some d
      → port_known (value_or d.portnum (pos 0)) ≡ true
      → try_decrypt cipher decode_data s (before ++ k ∷ after) (some (candidate_of k).hash)
        ≡ some (record { inner = normalize_data d; key_name = k.name })
  unfolding try_decrypt matching
  try_decrypt_round k before after s plain d law other sealed e known =
      ap (try_matching cipher decode_data s (map candidate_of (before ++ k ∷ after))) (
        ap (filter (λ c. c.hash == (candidate_of k).hash)) (candidates_split k before after)
        ∙ filter_skips (λ c. c.hash == (candidate_of k).hash) (candidate_of k)
            (map candidate_of before) (map candidate_of after)
            (others_skipped (candidate_of k).hash before other)
            ((==_iff (candidate_of k).hash (candidate_of k).hash).1 refl))
      ∙ hit_first s (map candidate_of (before ++ k ∷ after)) _ (candidate_of k) _
          (attempt-seal k s plain d law sealed e known)
