-- ===== src/Live/Hub/Once.antt =====
-- No event is sent twice by src/lib/livehub.ts.
use hop_watch.Prelude.{
  ℕ, zero, suc, ◌*◌, ◌≤◌, ◌<◌, max, String, ◌≡◌, refl, subst, ◌∙◌, inl, inr, Bool, true, false, not,
  ◌&&◌, ◌||◌, Option, none, some, List, [], ◌∷◌, ◌++◌, arith, ltb, leb, ◌==◌, ltb→lt, Bool-cases,
  if-cases, length, take, filter, All,
}
use mathlib.Core.Bool.{false≢true}
use hop_watch.Live.Hub.{
  LiveEvent, Hub, page_size, lookback_ids, live_events_since, has, window_floor, fan_out,
  fan_out_all, retire, poll,
}

abbrev pub no_repeat : List ℕ → Bool
no_repeat [] = true
no_repeat (i ∷ is) = not (has i is) && no_repeat is

-- What was sent is remembered, or lies at or below `from`; and it was sent once.
record Remembers (from : ℕ) (h : Hub) : Type 0 where
  known : (i : ℕ) → has i h.log ≡ true → (has i h.delivered || leb i from) ≡ true
  single : no_repeat h.log ≡ true

-- The cursor never goes back and the floor stays.
record Forward (h h' : Hub) : Type 0 where
  cursor : h.cursor ≤ h'.cursor
  floor_id : h'.floor_id ≡ h.floor_id

has-snoc : (i j : ℕ) (is : List ℕ) → has i (is ++ j ∷ []) ≡ (has i is || j == i)
unfolding has
has-snoc i j [] = ground arith
has-snoc i j (k ∷ is) = ground (arith, has-snoc i j is)

no_repeat-snoc :
    (j : ℕ) (is : List ℕ) → has j is ≡ false → no_repeat is ≡ true → no_repeat (is ++ j ∷ []) ≡ true
unfolding has
no_repeat-snoc j [] new h = refl
no_repeat-snoc j (i ∷ is) new h = ground (arith, no_repeat-snoc j is, has-snoc i j is)

fan_out-Remembers :
    (from : ℕ) (e : LiveEvent) (h : Hub)
    → from < e.id
    → Remembers from h
    → Remembers from (fan_out e h).0 × Forward h (fan_out e h).0
unfolding fan_out
fan_out-Remembers from e h above m =
    if-cases P (leb e.id h.floor_id || has e.id h.delivered)
      (λ _. (m, record { cursor = omega arith; floor_id = refl }))
      (λ new. sent e.payload (unsent new))
  where
    P : Hub × Bool → Type 0
    P r = Remembers from r.0 × Forward h r.0

    unsent : (leb e.id h.floor_id || has e.id h.delivered) ≡ false → has e.id h.log ≡ false
    unsent new = elim (Bool-cases (has e.id h.log)) [
      | inl old ↦ (let k = m.known e.id old in absurd (ground arith))
      | inr missing ↦ missing
    ]

    remembered :
        (i : ℕ)
        → has i (h.log ++ e.id ∷ []) ≡ (has i h.log || e.id == i)
        → has i (h.log ++ e.id ∷ []) ≡ true
        → (has i (e.id ∷ h.delivered) || leb i from) ≡ true
    remembered i q k = (let m' = m.known i in unfold has in ground arith)

    sent :
        (p : Option String)
        → has e.id h.log ≡ false
        → P (elim p [
          | none ↦ (record h { delivered = e.id ∷ h.delivered; cursor = max h.cursor e.id }, false)
          | some p ↦ (
            record h {
              delivered = e.id ∷ h.delivered;
              cursor = max h.cursor e.id;
              log = h.log ++ e.id ∷ [];
            },
            true,
          )
        ])
    sent none new = (
      record {
        known = λ i k. (let m' = m.known i k in unfold has in ground arith);
        single = m.single;
      },
      record { cursor = omega arith; floor_id = refl },
    )
    sent (some p) new = (
      record {
        known = λ i k. remembered i (has-snoc i e.id h.log ∙ refl) k;
        single = no_repeat-snoc e.id h.log new m.single;
      },
      record { cursor = omega arith; floor_id = refl },
    )

Forward-trans : (a b c : Hub) → Forward a b → Forward b c → Forward a c
Forward-trans a b c f g = record {
  cursor = (let x = f.cursor in let y = g.cursor in omega arith);
  floor_id = g.floor_id ∙ f.floor_id;
}

fan_out_all-Remembers :
    (from : ℕ) (es : List LiveEvent) (h : Hub)
    → All (λ e. from < e.id) es
    → Remembers from h
    → Remembers from (fan_out_all es h).0 × Forward h (fan_out_all es h).0
unfolding fan_out_all
fan_out_all-Remembers from [] h above m = (m, record { cursor = omega arith; floor_id = refl })
fan_out_all-Remembers from (e ∷ es) h (a, rest) m =
    let (m', f) = fan_out-Remembers from e h a m in
    let (m'', g) = fan_out_all-Remembers from es (fan_out e h).0 rest m' in
    if-cases (λ (r : Hub × Bool). Remembers from r.0 × Forward h r.0) (fan_out e h).1
      (λ _. (m'', Forward-trans h _ _ f g)) (λ _. (m', f))

since_above :
    (from : ℕ) (table : List LiveEvent) → All (λ e. from < e.id) (live_events_since from table)
unfolding live_events_since
since_above from table = All-take page_size _ (filtered table)
  where
    filtered : (table : List LiveEvent) → All (λ e. from < e.id) (filter (λ e. ltb from e.id) table)
    filtered [] = tt
    filtered (e ∷ es) =
        if-cases (All (λ e. from < e.id)) (ltb from e.id) (λ h. (ltb→lt from e.id h, filtered es))
          (λ _. filtered es)

    All-take :
        (n : ℕ) (es : List LiveEvent)
        → All (λ e. from < e.id) es
        → All (λ e. from < e.id) (take n es)
    All-take zero es h = tt
    All-take (suc n) [] h = tt
    All-take (suc n) (e ∷ es) (h, hs) = (h, All-take n es hs)

has-filter : (i from : ℕ) (is : List ℕ) → from < i → has i (filter (λ j. ltb from j) is) ≡ has i is
unfolding has
has-filter i from [] h = refl
has-filter i from (j ∷ is) h = ground (arith, has-filter i from is)

Remembers-later :
    (from : ℕ) (h : Hub) → from ≤ window_floor h → Remembers from h → Remembers (window_floor h) h
Remembers-later from h le m = record {
  known = λ i k. (let m' = m.known i k in ground arith);
  single = m.single;
}

retire-Remembers :
    (h : Hub) → Remembers (window_floor h) h → Remembers (window_floor (retire h)) (retire h)
unfolding retire
retire-Remembers h m =
    if-cases (λ h'. Remembers (window_floor h') h') (ltb (lookback_ids * 2) (length h.delivered))
      (λ _. record { known = λ i k. kept i k; single = m.single }) (λ _. m)
  where
    kept :
        (i : ℕ)
        → has i h.log ≡ true
        → (has i (filter (λ i. ltb (window_floor h) i) h.delivered) || leb i (window_floor h))
          ≡ true
    kept i k =
        (let m' = m.known i k in let f = has-filter i (window_floor h) h.delivered in ground arith)

poll-Remembers :
    (table : Option (List LiveEvent)) (h : Hub)
    → Remembers (window_floor h) h
    → Remembers (window_floor (poll table h)) (poll table h)
unfolding poll
poll-Remembers none h m = m
poll-Remembers (some table) h m =
    let (m', f) =
      fan_out_all-Remembers (window_floor h) (live_events_since (window_floor h) table) h
        (since_above (window_floor h) table) m in
    let m'' = Remembers-later (window_floor h) _ (rises _ f) m' in
    if-cases (λ h'. Remembers (window_floor h') h') _ (λ _. retire-Remembers _ m'') (λ _. m'')
  where
    rises : (h' : Hub) → Forward h h' → window_floor h ≤ window_floor h'
    rises h' f = (let c = f.cursor in let g = f.floor_id in unfold window_floor in grind arith)

-- A sequence of polls, each of what the table shows then.
unfoldable pub poll_all : List (Option (List LiveEvent)) → Hub → Hub
poll_all [] h = h
poll_all (t ∷ ts) h = poll_all ts (poll t h)

poll_all-Remembers :
    (ts : List (Option (List LiveEvent))) (h : Hub)
    → Remembers (window_floor h) h
    → Remembers (window_floor (poll_all ts h)) (poll_all ts h)
unfolding poll_all
poll_all-Remembers [] h m = m
poll_all-Remembers (t ∷ ts) h m = poll_all-Remembers ts (poll t h) (poll-Remembers t h m)

-- From a hub that has sent nothing yet, no sequence of polls sends an event twice, whatever the
-- table shows at each, rows that become visible late or out of order and failed polls included.
pub poll_all_once :
    (ts : List (Option (List LiveEvent))) (h : Hub)
    → h.log ≡ []
    → no_repeat (poll_all ts h).log ≡ true
unfolding has
poll_all_once ts h none_yet = (poll_all-Remembers ts h start).single
  where
    start : Remembers (window_floor h) h
    start = record {
      known = λ i k. absurd (false≢true (subst (λ l. has i l ≡ true) none_yet k));
      single = rw none_yet refl;
    }
