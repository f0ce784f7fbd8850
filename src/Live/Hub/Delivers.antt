-- ===== src/Live/Hub/Delivers.antt =====
-- What a poll of src/lib/livehub.ts sends.
use hop_watch.Prelude.{
  ℕ, ◌*◌, ◌<◌, max, String, ◌≡◌, refl, sym, subst, ◌∙◌, inl, inr, Bool, true, false, ◌||◌, Option,
  none, some, List, [], ◌∷◌, ◌++◌, arith, ltb, leb, ◌==◌, Bool-cases, if-cases, is_some, length,
  All,
}
use hop_watch.Live.Hub.{
  LiveEvent, Hub, lookback_ids, live_events_since, has, window_floor, fan_out, fan_out_all, retire,
  poll,
}

-- A hub that has gone on: it has sent what it had, and what it newly remembers it has sent.
record Onward (h h' : Hub) : Type 0 where
  floor_id : h'.floor_id ≡ h.floor_id
  log : (i : ℕ) → has i h.log ≡ true → has i h'.log ≡ true
  delivered : (i : ℕ) → has i h.delivered ≡ true → has i h'.delivered ≡ true
  gained : (i : ℕ) → has i h'.delivered ≡ true → (has i h.delivered || has i h'.log) ≡ true

Onward-trans : (a b c : Hub) → Onward a b → Onward b c → Onward a c
Onward-trans a b c f g = record {
  floor_id = g.floor_id ∙ f.floor_id;
  log = λ i k. g.log i (f.log i k);
  delivered = λ i k. g.delivered i (f.delivered i k);
  gained = λ i k. gain i (g.gained i k);
}
  where
    gain :
        (i : ℕ)
        → (has i b.delivered || has i c.log) ≡ true
        → (has i a.delivered || has i c.log) ≡ true
    gain i k = elim (Bool-cases (has i b.delivered)) [
      | inl old ↦ (let l = f.gained i old in let m = g.log i in ground arith)
      | inr new ↦ ground arith
    ]

has-snoc : (i j : ℕ) (is : List ℕ) → has i (is ++ j ∷ []) ≡ (has i is || j == i)
unfolding has
has-snoc i j [] = ground arith
has-snoc i j (k ∷ is) = ground (arith, has-snoc i j is)

-- At or below the floor, or remembered.
abbrev Seen : Hub → ℕ → Type 0
Seen h i = (leb i h.floor_id || has i h.delivered) ≡ true

fan_out-Onward :
    (e : LiveEvent) (h : Hub)
    → is_some e.payload ≡ true
    → Onward h (fan_out e h).0 × Seen (fan_out e h).0 e.id × ((fan_out e h).1 ≡ true)
unfolding fan_out
fan_out-Onward e h parses =
    if-cases P (leb e.id h.floor_id || has e.id h.delivered)
      (λ seen. (
        record {
          floor_id = refl;
          log = λ i k. k;
          delivered = λ i k. k;
          gained = λ i k. (ground arith);
        },
        seen,
        refl,
      ))
      (λ new. sent e.payload parses)
  where
    P : Hub × Bool → Type 0
    P r = Onward h r.0 × Seen r.0 e.id × (r.1 ≡ true)

    here : (i : ℕ) → has i (e.id ∷ h.delivered) ≡ (e.id == i || has i h.delivered)
    here i = unfold has in refl

    sent :
        (p : Option String)
        → is_some p ≡ true
        → P (elim p [
          | none ↦ (record h { delivered = e.id ∷ h.delivered; cursor = max h.cursor e.id }, false)
          | some p ↦ (
            record h {
              delivered = e.id ∷ h.delivered;
              cursor = max h.cursor e.id;
              log = h.log ++ e.id ∷ [];
            },
            true,
          )
        ])
    sent none ok = absurd (cc)
    sent (some p) ok = (
      record {
        floor_id = refl;
        log = λ i k. (let s = has-snoc i e.id h.log in ground arith);
        delivered = λ i k. (let q = here i in ground arith);
        gained = λ i k. (let q = here i in let s = has-snoc i e.id h.log in ground arith);
      },
      (let q = here e.id in ground arith),
      refl,
    )

fan_out_all-Onward :
    (es : List LiveEvent) (h : Hub)
    → All (λ e. is_some e.payload ≡ true) es
    → Onward h (fan_out_all es h).0
      × All (λ e. Seen (fan_out_all es h).0 e.id) es
      × ((fan_out_all es h).1 ≡ true)
unfolding fan_out_all
fan_out_all-Onward [] h parse = (
  record { floor_id = refl; log = λ i k. k; delivered = λ i k. k; gained = λ i k. (ground arith) },
  tt,
  refl,
)
fan_out_all-Onward (e ∷ es) h (p, ps) =
    let (f, s, on) = fan_out-Onward e h p in
    let (g, ss, on') = fan_out_all-Onward es (fan_out e h).0 ps in
    subst (λ (r : Hub × Bool). Onward h r.0 × All (λ x. Seen r.0 x.id) (e ∷ es) × (r.1 ≡ true))
      (sym (goes_on on)) (Onward-trans h _ _ f g, (seen_still _ _ g s, ss), on')
  where
    goes_on : (fan_out e h).1 ≡ true → fan_out_all (e ∷ es) h ≡ fan_out_all es (fan_out e h).0
    goes_on on = rw on refl

    seen_still : (a b : Hub) → Onward a b → Seen a e.id → Seen b e.id
    seen_still a b g s = (let l = g.floor_id in let d = g.delivered e.id in ground arith)

All-weaken :
    (P Q : LiveEvent → Type 0)
    → ((x : LiveEvent) → P x → Q x)
    → (xs : List LiveEvent) → All P xs
    → All Q xs
All-weaken P Q f [] h = tt
All-weaken P Q f (x ∷ xs) (h, hs) = (f x h, All-weaken P Q f xs hs)

-- When the payloads on its page parse, a poll sends every event on the page that lies above the
-- floor and was not delivered before.
pub poll_delivers :
    (h : Hub) (table : List LiveEvent)
    → All (λ e. is_some e.payload ≡ true) (live_events_since (window_floor h) table)
    → All
        (λ e.
          h.floor_id < e.id
          → has e.id h.delivered ≡ false
          → has e.id (poll (some table) h).log ≡ true)
        (live_events_since (window_floor h) table)
unfolding poll retire
poll_delivers h table parse =
    let (f, seen, on) = fan_out_all-Onward (live_events_since (window_floor h) table) h parse in
    rw on (
      All-weaken (λ x. Seen (fan_out_all (live_events_since (window_floor h) table) h).0 x.id) _
        (λ x s above new. newly _ f x s above new) _ seen)
  where
    log-retire : (a : Hub) → (retire a).log ≡ a.log
    log-retire a =
        if-cases (λ (b : Hub). b.log ≡ a.log) (ltb (lookback_ids * 2) (length a.delivered))
          (λ _. refl) (λ _. refl)

    newly :
        (a : Hub)
        → Onward h a
        → (x : LiveEvent) → Seen a x.id
        → h.floor_id < x.id
        → has x.id h.delivered ≡ false
        → has x.id (retire a).log ≡ true
    newly a f x s above new =
        rw (log-retire a) (let g = f.gained x.id in let l = f.floor_id in ground arith)
