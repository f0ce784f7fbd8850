-- ===== src/Meshtastic/Decrypt/Hit.antt =====
-- Which key opens a packet, src/meshtastic/decode.ts, tryDecrypt.
use hop_watch.Prelude.{
  ℕ, ◌≡◌, refl, sym, ap, subst, ◌∙◌, ◌≢◌, ◌⊎◌, inl, inr, Bool, true, false, not, ◌&&◌, Option, none,
  some, List, [], ◌∷◌, map, ◌==◌, if◌then◌else◌, ==_iff, Option-cases, if-cases, filter, Mem-filter,
  some_injective,
}
use hop_watch.Prelude.Int.{pos}
use mathlib.Core.Bool.{false≢true}
use mathlib.Core.List.{Memᴰ}
use mathlib.Core.List.Memᴰ.{head, tail, not-nil}
use hop_watch.Meshtastic.Crypto.{Cipher}
use hop_watch.Meshtastic.Decrypt.{
  WireData, ChannelKey, KeyCandidate, Opened, Sealed, candidate_of, normalize_data, port_known,
  strict_ok, value_or, accept_data, attempt, first_hit, matching, try_matching, try_decrypt,
  plain_of,
}

none-absurd : {A : Type 0} {B : Type 0} (x : A) → none ≡ some x → B
none-absurd x e = absurd (cc)

Mem-candidates :
    (c : KeyCandidate) (keys : List ChannelKey)
    → Memᴰ c (map candidate_of keys)
    → (k : ChannelKey) × Memᴰ k keys × (c ≡ candidate_of k)
Mem-candidates c [] m = elim m [ ]
Mem-candidates c (k ∷ keys) (head e) = (k, head refl, e)
Mem-candidates c (k ∷ keys) (tail m) = let r = Mem-candidates c keys m in (r.0, tail (r.1), r.2)

module _ (cipher : Cipher) (decode_data : List ℕ → Option WireData) where
  -- A candidate's key turns the ciphertext into a Data message on a port from 1 to 511, with
  -- what the strict test wants where it is asked for, and that message is the result.
  abbrev pub Opens : Bool → Sealed → KeyCandidate → Opened → Type 0
  Opens strict s c hit =
      (plain : List ℕ) × (d : WireData) × (plain_of cipher decode_data s c ≡ some plain)
      × (decode_data plain ≡ some d)
      × (port_known (value_or d.portnum (pos 0)) ≡ true)
      × (strict ≡ true → strict_ok d ≡ true)
      × (hit ≡ record { inner = normalize_data d; key_name = c.name })

  accept_data-Opens :
      (strict : Bool) (c : KeyCandidate) (d : WireData) (hit : Opened)
      → accept_data cipher decode_data strict c d ≡ some hit
      → (port_known (value_or d.portnum (pos 0)) ≡ true)
        × (strict ≡ true → strict_ok d ≡ true)
        × (hit ≡ record { inner = normalize_data d; key_name = c.name })
  unfolding accept_data
  accept_data-Opens strict c d hit =
      both strict (port_known (value_or d.portnum (pos 0))) (strict_ok d)
    where
      both :
          (strict p q : Bool)
          → (if not p
              then none
              else if strict && not q
              then none
              else some (record { inner = normalize_data d; key_name = c.name }))
            ≡ some hit
          → (p ≡ true)
            × (strict ≡ true → q ≡ true)
            × (hit ≡ record { inner = normalize_data d; key_name = c.name })
      both strict false q e = none-absurd hit e
      both false true q e = (refl, (λ h. absurd (false≢true h)), some_injective _ _ (sym e))
      both true true false e = none-absurd hit e
      both true true true e = (refl, (λ _. refl), some_injective _ _ (sym e))

  attempt-Opens :
      (strict : Bool) (s : Sealed) (c : KeyCandidate) (hit : Opened)
      → attempt cipher decode_data strict s c ≡ some hit
      → Opens strict s c hit
  unfolding attempt
  attempt-Opens strict s c hit e = elim (Option-cases (plain_of cipher decode_data s c)) [
    | inl e1 ↦ none-absurd hit (rw (e1, attempt) at e)
    | inr (plain, e1) ↦ elim (Option-cases (decode_data plain)) [
      | inl e2 ↦ none-absurd hit (rw (e1, e2, attempt) at e)
      | inr (d, e2) ↦
          let r = accept_data-Opens strict c d hit (rw (e1, e2, attempt) at e) in
          (plain, d, e1, e2, r.0, r.1, r.2)
    ]
  ]

  first_hit-Opens :
      (strict : Bool) (s : Sealed) (cs : List KeyCandidate) (hit : Opened)
      → first_hit cipher decode_data strict s cs ≡ some hit
      → (c : KeyCandidate) × Memᴰ c cs × Opens strict s c hit
  unfolding first_hit
  first_hit-Opens strict s [] hit e = none-absurd hit e
  first_hit-Opens strict s (c ∷ cs) hit e =
      elim (Option-cases (attempt cipher decode_data strict s c)) [
        | inl e1 ↦
            let r = first_hit-Opens strict s cs hit (rw (e1, first_hit) at e) in
            (r.0, tail (r.1), r.2)
        | inr (x, e1) ↦ (c, head refl, attempt-Opens strict s c hit (e1 ∙ rw (e1, first_hit) at e))
      ]

  -- The firmware's rule where some key has the hash, and otherwise the strict guess.
  abbrev pub IsHit : Sealed → List ChannelKey → Option ℕ → Opened → Type 0
  IsHit s keys byte hit =
      (k : ChannelKey) × Memᴰ k keys
      × (((byte ≡ some (candidate_of k).hash) × Opens false s (candidate_of k) hit)
          ⊎ (((k' : ChannelKey) → Memᴰ k' keys → byte ≢ some (candidate_of k').hash)
              × Opens true s (candidate_of k) hit))

  Hashed : Option ℕ → KeyCandidate → Type 0
  Hashed byte c = byte ≡ some c.hash

  Mem-matching :
      (byte : Option ℕ) (c : KeyCandidate) (cs : List KeyCandidate)
      → Memᴰ c (matching cipher decode_data byte cs)
      → Memᴰ c cs × (byte ≡ some c.hash)
  unfolding matching
  Mem-matching none c cs m = elim m [ ]
  Mem-matching (some b) c cs m =
      let r = Mem-filter (λ x. x.hash == b) c cs m in
      (r.0, ap some (sym ((==_iff c.hash b).0 (r.1))))

  -- A key with the hash is among those that are tried.
  matching-Mem :
      (b : ℕ) (k : ChannelKey) (keys : List ChannelKey)
      → Memᴰ k keys
      → (candidate_of k).hash ≡ b
      → Memᴰ (candidate_of k) (filter (λ c. c.hash == b) (map candidate_of keys))
  matching-Mem b k [] m e = elim m [ ]
  matching-Mem b k (x ∷ keys) (head h) e =
      if-cases (λ (zs : List _). Memᴰ (candidate_of k) zs) ((candidate_of x).hash == b)
        (λ _. head (ap candidate_of h))
        (λ f.
          absurd
            (false≢true (sym f ∙ (==_iff _ b).1 (ap (λ z. (candidate_of z).hash) (sym h) ∙ e))))
  matching-Mem b k (x ∷ keys) (tail m) e =
      if-cases (λ (zs : List _). Memᴰ (candidate_of k) zs) ((candidate_of x).hash == b)
        (λ _. tail (matching-Mem b k keys m e)) (λ _. matching-Mem b k keys m e)

  unmatched :
      (byte : Option ℕ) (keys : List ChannelKey)
      → matching cipher decode_data byte (map candidate_of keys) ≡ []
      → (k : ChannelKey) → Memᴰ k keys
      → byte ≢ some (candidate_of k).hash
  unfolding matching
  unmatched none keys e k m h = none-absurd _ h
  unmatched (some b) keys e k m h =
      not-nil
        (subst (Memᴰ (candidate_of k)) e (matching-Mem b k keys m (sym (some_injective _ _ h))))

  try_matching-IsHit :
      (s : Sealed) (keys : List ChannelKey) (byte : Option ℕ) (ms : List KeyCandidate)
      (hit : Opened)
      → matching cipher decode_data byte (map candidate_of keys) ≡ ms
      → try_matching cipher decode_data s (map candidate_of keys) ms ≡ some hit
      → IsHit s keys byte hit
  unfolding try_matching
  try_matching-IsHit s keys byte [] hit none_left e =
      let (c, m, o) = first_hit-Opens true s (map candidate_of keys) hit e in
      let (k, mk, same) = Mem-candidates c keys m in
      (k, mk, inr (unmatched byte keys none_left, subst (λ x. Opens true s x hit) same o))
  try_matching-IsHit s keys byte (x ∷ ms) hit some_left e =
      let (c, m, o) = first_hit-Opens false s (x ∷ ms) hit e in
      let (mc, hash) =
        Mem-matching byte c (map candidate_of keys) (subst (Memᴰ c) (sym some_left) m) in
      let (k, mk, same) = Mem-candidates c keys mc in
      (k, mk, inl (hash ∙ ap (λ z. some z.hash) same, subst (λ z. Opens false s z hit) same o))

  -- What the opening of a ciphertext yields was made by a configured key: by the firmware's rule, a
  -- key whose channel hash is the packet's channel byte, or, by the strict test and only where no
  -- configured key has that hash, by another. In both cases the key's plaintext decodes as a Data
  -- message on a port from 1 to 511, and the result is that message under that key's name.
  pub try_decrypt-IsHit :
      (s : Sealed) (keys : List ChannelKey) (byte : Option ℕ) (hit : Opened)
      → try_decrypt cipher decode_data s keys byte ≡ some hit
      → IsHit s keys byte hit
  unfolding try_decrypt
  try_decrypt-IsHit s keys byte hit e = try_matching-IsHit s keys byte _ hit refl e
