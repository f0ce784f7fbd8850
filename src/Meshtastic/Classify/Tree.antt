-- ===== src/Meshtastic/Classify/Tree.antt =====
-- The decision tree of src/meshtastic/classify.ts as a relation on header facts.
use hop_watch.Prelude.{
  ℕ, zero, suc, ◌<◌, ◌≡◌, refl, ap, subst, ◌∙◌, ◌≢◌, ◌↔◌, ◌⊎◌, inl, inr, true, false, Option, none,
  some, arith, ◌==◌, ==_iff, Bool-cases,
}
use hop_watch.Prelude.Int.{ℤ, pos, negsuc, sub_ℕ}
use hop_watch.Meshtastic.Classify.{
  ReceptionClass, rf_direct, rf_direct_low_conf, rf_relayed, mqtt_self, mqtt_injected, unknown,
  ReceptionFacts, Classification, has_rf, by_hops, relay_seen, by_relay, by_header,
  classify_reception, feeds_direct_roster, is_rf_reception,
}

-- Some signal value was reported.
abbrev pub HasSignal : ReceptionFacts → Type 0
HasSignal f = (f.rx_rssi ≢ none) ⊎ (f.rx_snr ≢ none)

abbrev pub NoHops : ReceptionFacts → Type 0
NoHops f = (f.hop_start ≡ none) ⊎ (f.hop_limit ≡ none)

abbrev pub Relay : ReceptionFacts → Type 0
Relay f = (b : ℕ) × (f.relay_node ≡ some (suc b))

-- What each class means for the header.
abbrev pub Means : ReceptionClass → ReceptionFacts → Type 0
Means mqtt_self f = f.gateway_id ≡ f.from_node_id
Means mqtt_injected f = (f.gateway_id ≢ f.from_node_id) × ¬ HasSignal f
Means rf_direct f =
    (f.gateway_id ≢ f.from_node_id)
    × HasSignal f
    × ((n : ℕ) × (f.hop_start ≡ some n) × (f.hop_limit ≡ some n))
Means rf_relayed f =
    (f.gateway_id ≢ f.from_node_id)
    × HasSignal f
    × (((n : ℕ) × (m : ℕ) × (f.hop_start ≡ some n) × (f.hop_limit ≡ some m) × (m < n))
        ⊎ (NoHops f × Relay f))
Means unknown f =
    (f.gateway_id ≢ f.from_node_id)
    × HasSignal f
    × ((n : ℕ) × (m : ℕ) × (f.hop_start ≡ some n) × (f.hop_limit ≡ some m) × (n < m))
Means rf_direct_low_conf f = (f.gateway_id ≢ f.from_node_id) × HasSignal f × NoHops f × ¬ Relay f

rf_found : (f : ReceptionFacts) → has_rf f ≡ true → HasSignal f
unfolding has_rf
rf_found f h = ground arith

rf_missing : (f : ReceptionFacts) → has_rf f ≡ false → ¬ HasSignal f
unfolding has_rf
rf_missing f h (inl s) = ground arith
rf_missing f h (inr s) = ground arith

hops_sound :
    (f : ReceptionFacts) (n m : ℕ) (z : ℤ)
    → sub_ℕ n m ≡ z
    → f.hop_start ≡ some n
    → f.hop_limit ≡ some m
    → f.gateway_id ≢ f.from_node_id
    → HasSignal f
    → Means (by_hops true z).cls f
unfolding by_hops
hops_sound f n m (pos zero) e hs hl g s =
    let same : m ≡ n = ground arith in (g, s, (n, hs, hl ∙ ap some same))
hops_sound f n m (pos (suc k)) e hs hl g s = (g, s, inl (n, m, hs, hl, ground arith))
hops_sound f n m (negsuc k) e hs hl g s = (g, s, (n, m, hs, hl, ground arith))

nonzero : (b : ℕ) → (suc b == 0) ≡ false
nonzero b = ground arith

relay_sound :
    (f : ReceptionFacts) (r : Option ℕ)
    → f.relay_node ≡ r
    → NoHops f
    → f.gateway_id ≢ f.from_node_id
    → HasSignal f
    → Means (by_relay true r).cls f
unfolding by_relay
relay_sound f none e h g s = (g, s, h, λ (b, seen). cc)
relay_sound f (some zero) e h g s = (g, s, h, λ (b, seen). cc)
relay_sound f (some (suc b)) e h g s = rw (nonzero b) (g, s, inr (h, (b, e)))

header_sound :
    (f : ReceptionFacts) (start limit : Option ℕ)
    → f.hop_start ≡ start
    → f.hop_limit ≡ limit
    → f.gateway_id ≢ f.from_node_id
    → HasSignal f
    → Means (by_header true start limit f.relay_node).cls f
unfolding by_header
header_sound f none limit hs hl g s = relay_sound f f.relay_node refl (inl hs) g s
header_sound f (some n) none hs hl g s = relay_sound f f.relay_node refl (inr hl) g s
header_sound f (some n) (some m) hs hl g s = hops_sound f n m (sub_ℕ n m) refl hs hl g s

pub classify_sound : (f : ReceptionFacts) → Means (classify_reception f).cls f
unfolding classify_reception
classify_sound f = elim (Bool-cases (f.gateway_id == f.from_node_id)) [
  | inl own ↦ rw own ((==_iff _ _).0 own)
  | inr other ↦
      let g : f.gateway_id ≢ f.from_node_id = ground arith in
      elim (Bool-cases (has_rf f)) [
        | inr silent ↦ rw (other, silent) (g, rf_missing f silent)
        | inl heard ↦
            rw (other, heard)
              (header_sound f f.hop_start f.hop_limit refl refl g (rf_found f heard))
      ]
]

unrelayed : (f : ReceptionFacts) → ¬ Relay f → relay_seen f.relay_node ≡ false
unrelayed f h = split f.relay_node refl
  where
    split : (r : Option ℕ) → f.relay_node ≡ r → relay_seen f.relay_node ≡ false
    split none e = rw e (unfold relay_seen in refl)
    split (some zero) e = rw e (unfold relay_seen in refl)
    split (some (suc b)) e = absurd (h (b, e))

classify_complete :
    (c : ReceptionClass) (f : ReceptionFacts) → Means c f → (classify_reception f).cls ≡ c
unfolding classify_reception
classify_complete mqtt_self f m = ground arith
classify_complete mqtt_injected f m = ground arith
classify_complete rf_direct f m = ground arith
classify_complete rf_relayed f m = ground arith
classify_complete unknown f m = ground arith
classify_complete rf_direct_low_conf f m = ground (arith, unrelayed f m.3)

-- The class of a reception is the one class whose meaning, stated on the header alone, holds of it:
-- an own uplink, no signal value, equal hop counts, a used hop or a relay byte, a hop count below
-- zero, or no evidence either way.
pub classify_reception_lem :
    (c : ReceptionClass) (f : ReceptionFacts) → ((classify_reception f).cls ≡ c) ↔ Means c f
classify_reception_lem c f =
    (λ e. subst (λ d. Means d f) e (classify_sound f), classify_complete c f)

confirmed_feeds :
    (f : ReceptionFacts)
    → (classify_reception f).is_confirmed_direct ≡ feeds_direct_roster (classify_reception f)
unfolding classify_reception feeds_direct_roster
confirmed_feeds f = ground arith

feeds_cls : (c : Classification) → feeds_direct_roster c ≡ true → c.cls ≡ rf_direct
unfolding feeds_direct_roster
feeds_cls c h = ground arith

rf_cls :
    (c : Classification)
    → is_rf_reception c ≡ true
    → (c.cls ≡ rf_direct) ⊎ ((c.cls ≡ rf_direct_low_conf) ⊎ (c.cls ≡ rf_relayed))
unfolding is_rf_reception
rf_cls c h = ground arith

rf_signal : (f : ReceptionFacts) → is_rf_reception (classify_reception f) ≡ true → HasSignal f
rf_signal f h = split (rf_cls (classify_reception f) h)
  where
    c : ReceptionClass
    c = (classify_reception f).cls

    split : (c ≡ rf_direct) ⊎ ((c ≡ rf_direct_low_conf) ⊎ (c ≡ rf_relayed)) → HasSignal f
    split (inl e) = ((classify_reception_lem rf_direct f).0 e).1
    split (inr (inl e)) = ((classify_reception_lem rf_direct_low_conf f).0 e).1
    split (inr (inr e)) = ((classify_reception_lem rf_relayed f).0 e).1

-- A reception is confirmed direct exactly if its class feeds the direct roster, and then two
-- different nodes were involved, a signal was measured and no hop was used; a reception that counts
-- as one over the air always carries a signal value.
pub classify_roster :
    (f : ReceptionFacts)
    → ((classify_reception f).is_confirmed_direct ≡ feeds_direct_roster (classify_reception f))
      × (feeds_direct_roster (classify_reception f) ≡ true → Means rf_direct f)
      × (is_rf_reception (classify_reception f) ≡ true → HasSignal f)
classify_roster f = (
  confirmed_feeds f,
  λ h. (classify_reception_lem rf_direct f).0 (feeds_cls (classify_reception f) h),
  rf_signal f,
)
