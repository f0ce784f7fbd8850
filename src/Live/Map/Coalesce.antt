-- ===== src/Live/Map/Coalesce.antt =====
-- That coalescing loses and invents nothing, src/lib/livemap.ts.
use hop_watch.Prelude.{
  ℕ, ◌≡◌, refl, sym, ap, ◌∙◌, inl, inr, Bool, true, false, not, ◌&&◌, ◌||◌, List, [], ◌∷◌, ◌++◌,
  map, arith, ◌==◌, if◌then◌else◌, Bool-cases, filter, any,
}
use mathlib.Core.List.{append-nil, append_assoc}
use hop_watch.Live.Map.{
  LiveReception, ResolveCtx, GatewayAnim, PacketAnim, Groups, add_to_group, group_all, gateway_anim,
  anim_of, coalesce_by_packet,
}

-- The receptions in the group of a packet; whether there is such a group; no two for one packet.
abbrev group_of : ℕ → Groups → List LiveReception
group_of p [] = []
group_of p ((q, g) ∷ gs) = if q == p then g else group_of p gs

abbrev has_group : ℕ → Groups → Bool
has_group p [] = false
has_group p ((q, g) ∷ gs) = q == p || has_group p gs

abbrev one_each : Groups → Bool
one_each [] = true
one_each ((q, g) ∷ gs) = not (has_group q gs) && one_each gs

abbrev pub of_packet : ℕ → List LiveReception → List LiveReception
of_packet p = filter (λ r. r.packet_id == p)

group_of-add :
    (p : ℕ) (r : LiveReception) (gs : Groups)
    → group_of p (add_to_group r gs) ≡ group_of p gs ++ of_packet p (r ∷ [])
unfolding add_to_group
group_of-add p r [] = ground arith
group_of-add p r ((q, g) ∷ gs) = elim (Bool-cases (q == r.packet_id)) [
  | inl own ↦ ground (arith, append-nil g, append-nil (group_of p gs))
  | inr other ↦ ground (arith, group_of-add p r gs, append-nil g)
]

has_group-add :
    (p : ℕ) (r : LiveReception) (gs : Groups)
    → has_group p (add_to_group r gs) ≡ (has_group p gs || r.packet_id == p)
unfolding add_to_group
has_group-add p r [] = ground arith
has_group-add p r ((q, g) ∷ gs) = ground (arith, has_group-add p r gs)

one_each-add :
    (r : LiveReception) (gs : Groups) → one_each gs ≡ true → one_each (add_to_group r gs) ≡ true
unfolding add_to_group
one_each-add r [] h = refl
one_each-add r ((q, g) ∷ gs) h = ground (arith, one_each-add r gs, has_group-add q r gs)

group_of-group_all :
    (p : ℕ) (rs : List LiveReception) (gs : Groups)
    → group_of p (group_all rs gs) ≡ group_of p gs ++ of_packet p rs
unfolding group_all
group_of-group_all p [] gs = sym (append-nil (group_of p gs))
group_of-group_all p (r ∷ rs) gs =
    group_of-group_all p rs (add_to_group r gs)
    ∙ ap (λ l. l ++ of_packet p rs) (group_of-add p r gs)
    ∙ append_assoc (group_of p gs) (of_packet p (r ∷ [])) (of_packet p rs)
    ∙ ap (group_of p gs ++◌) (joined (r.packet_id == p))
  where
    joined :
        (b : Bool)
        → (if b then r ∷ [] else []) ++ of_packet p rs
          ≡ (if b then r ∷ of_packet p rs else of_packet p rs)
    joined true = refl
    joined false = refl

one_each-group_all :
    (rs : List LiveReception) (gs : Groups) → one_each gs ≡ true → one_each (group_all rs gs) ≡ true
unfolding group_all
one_each-group_all [] gs h = h
one_each-group_all (r ∷ rs) gs h = one_each-group_all rs (add_to_group r gs) (one_each-add r gs h)

module _ {P : Type 0} where
  -- The gateways in the entry of a packet; no two entries for one packet.
  abbrev pub gateways_of : ℕ → List (PacketAnim P) → List (GatewayAnim P)
  gateways_of p [] = []
  gateways_of p (a ∷ rest) = if a.packet_id == p then a.gateways else gateways_of p rest

  abbrev has_anim : ℕ → List (PacketAnim P) → Bool
  has_anim p = any (λ a. a.packet_id == p)

  abbrev pub single_entries : List (PacketAnim P) → Bool
  single_entries [] = true
  single_entries (a ∷ rest) = not (has_anim a.packet_id rest) && single_entries rest

  anim_of_fields :
      (ctx : ResolveCtx P) (p : ℕ) (g : List LiveReception)
      → ((anim_of ctx (p, g)).packet_id ≡ p)
        × ((anim_of ctx (p, g)).gateways ≡ map (gateway_anim ctx) g)
  unfolding anim_of
  anim_of_fields ctx p [] = (refl, refl)
  anim_of_fields ctx p (r ∷ rs) = (refl, refl)

  gateways_of-map :
      (ctx : ResolveCtx P) (p : ℕ) (gs : Groups)
      → gateways_of p (map (anim_of ctx) gs) ≡ map (gateway_anim ctx) (group_of p gs)
  gateways_of-map ctx p [] = refl
  gateways_of-map ctx p ((q, g) ∷ gs) =
      let (key, gateways) = anim_of_fields ctx q g in
      rw (key, gateways) (branch (q == p) (gateways_of-map ctx p gs))
    where
      branch :
          (b : Bool)
          → gateways_of p (map (anim_of ctx) gs) ≡ map (gateway_anim ctx) (group_of p gs)
          → (if b then map (gateway_anim ctx) g else gateways_of p (map (anim_of ctx) gs))
            ≡ map (gateway_anim ctx) (if b then g else group_of p gs)
      branch true ih = refl
      branch false ih = ih

  has_anim-map :
      (ctx : ResolveCtx P) (p : ℕ) (gs : Groups)
      → has_anim p (map (anim_of ctx) gs) ≡ has_group p gs
  has_anim-map ctx p [] = refl
  has_anim-map ctx p ((q, g) ∷ gs) =
      rw ((anim_of_fields ctx q g).0) (ap ((q == p) ||◌) (has_anim-map ctx p gs))

  single_entries-map :
      (ctx : ResolveCtx P) (gs : Groups) → single_entries (map (anim_of ctx) gs) ≡ one_each gs
  single_entries-map ctx [] = refl
  single_entries-map ctx ((q, g) ∷ gs) =
      rw ((anim_of_fields ctx q g).0, has_anim-map ctx q gs, single_entries-map ctx gs) refl

  -- Of a burst of receptions the map shows one entry per packet, and the entry of a packet lists
  -- the gateway of each reception of that packet and of no other, in their order.
  pub coalesce_by_packet_lem :
      (recs : List LiveReception) (ctx : ResolveCtx P) (p : ℕ)
      → (single_entries (coalesce_by_packet recs ctx) ≡ true)
        × (gateways_of p (coalesce_by_packet recs ctx) ≡ map (gateway_anim ctx) (of_packet p recs))
  unfolding coalesce_by_packet
  coalesce_by_packet_lem recs ctx p = (
    single_entries-map ctx (group_all recs []) ∙ one_each-group_all recs [] refl,
    gateways_of-map ctx p (group_all recs [])
        ∙ ap (map (gateway_anim ctx)) (group_of-group_all p recs []),
  )
