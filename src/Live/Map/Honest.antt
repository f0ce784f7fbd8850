-- ===== src/Live/Map/Honest.antt =====
-- Which lines the live map draws for a reception, src/lib/livemap.ts.
use hop_watch.Prelude.{
  ℕ, ◌%◌, ◌≡◌, subst, ◌≢◌, ◌⊎◌, inl, inr, true, none, some, List, [], ◌∷◌, arith, ◌==◌,
  if◌then◌else◌, ==_iff, Bool-cases, filter, any, All,
}
use hop_watch.Live.Map.{
  direct_line, source_to_gateway, is_direct, LiveReception, ResolveCtx, Segment, source_to_relay,
  relay_to_gateway, relay_of, only_one, build_relay_resolver,
}

module _ {P : Type 0} where
  -- What supports the segments of a reception: nothing is drawn only when an end is not placed; one
  -- line runs between the two placed ends when no relay can be drawn, labelled by the hop header;
  -- and a relay is drawn between them when the relay byte is not zero and is resolved to a placed
  -- node that is neither end, whatever the hop header says.
  pub data Drawn (rec : LiveReception) (ctx : ResolveCtx P) : List (Segment P) → Type 0 where
    nothing : (ctx.pos_of rec.from ≡ none) ⊎ (ctx.pos_of rec.gateway ≡ none) → Drawn rec ctx []
    straight :
        (s g : P)
        → relay_of rec ctx ≡ none
        → ctx.pos_of rec.from ≡ some s
        → ctx.pos_of rec.gateway ≡ some g
        → Drawn rec ctx (
            record {
              from = s;
              to = g;
              observed = true;
              label =
                  if is_direct rec.hop_start rec.hop_limit then direct_line else source_to_gateway;
            }
            ∷ [])
    relayed :
        (byte id : ℕ) (s m g : P)
        → rec.relay_node ≡ some byte
        → byte ≢ 0
        → ctx.relay_resolver byte ≡ some id
        → id ≢ rec.from
        → id ≢ rec.gateway
        → ctx.pos_of rec.from ≡ some s
        → ctx.pos_of id ≡ some m
        → ctx.pos_of rec.gateway ≡ some g
        → Drawn rec ctx (
            record { from = s; to = m; observed = true; label = source_to_relay }
            ∷ record { from = m; to = g; observed = true; label = relay_to_gateway }
            ∷ [])

  -- A relay that is drawn, with what supports it.
  abbrev Relay : LiveReception → ResolveCtx P → ℕ × P → Type 0
  Relay rec ctx (id, m) =
      (byte : ℕ) × (rec.relay_node ≡ some byte)
      × (byte ≢ 0)
      × (ctx.relay_resolver byte ≡ some id)
      × (id ≢ rec.from)
      × (id ≢ rec.gateway)
      × (ctx.pos_of id ≡ some m)

only_one_lem : (xs : List ℕ) (id : ℕ) → only_one xs ≡ some id → xs ≡ id ∷ []
only_one_lem [] id h = absurd (cc)
only_one_lem (x ∷ []) id h = cc
only_one_lem (x ∷ y ∷ xs) id h = absurd (cc)

-- A relay byte stands for a node only if the node's id ends in it, and then it is the only known
-- node whose id does.
pub build_relay_resolver_lem :
    (nodes : List ℕ) (byte id : ℕ)
    → build_relay_resolver nodes byte ≡ some id
    → (id % 256 ≡ byte % 256)
      × (any (λ n. n == id) nodes ≡ true)
      × All (λ n. n % 256 ≡ byte % 256 → n ≡ id) nodes
unfolding build_relay_resolver
build_relay_resolver_lem nodes byte id h = lone nodes (only_one_lem _ id h)
  where
    none_left :
        (ns : List ℕ)
        → filter (λ n. n % 256 == byte % 256) ns ≡ []
        → All (λ n. n % 256 ≡ byte % 256 → n ≡ id) ns
    none_left [] e = tt
    none_left (n ∷ ns) e = elim (Bool-cases (n % 256 == byte % 256)) [
      | inl hit ↦ absurd (ground arith)
      | inr miss ↦ ((λ q. absurd (ground arith)), none_left ns (ground arith))
    ]

    first :
        (n : ℕ) (ns : List ℕ)
        → filter (λ n. n % 256 == byte % 256) (n ∷ ns) ≡ id ∷ []
        → (n % 256 == byte % 256) ≡ true
        → (n ≡ id) × (filter (λ n. n % 256 == byte % 256) ns ≡ [])
    first n ns e hit = (ground arith, ground arith)

    lone :
        (ns : List ℕ)
        → filter (λ n. n % 256 == byte % 256) ns ≡ id ∷ []
        → (id % 256 ≡ byte % 256)
          × (any (λ n. n == id) ns ≡ true)
          × All (λ n. n % 256 ≡ byte % 256 → n ≡ id) ns
    lone [] e = absurd (cc)
    lone (n ∷ ns) e = elim (Bool-cases (n % 256 == byte % 256)) [
      | inl hit ↦
          let (same, rest) = first n ns e hit in
          (
            subst (λ k. k % 256 ≡ byte % 256) same ((==_iff _ _).0 hit),
            (ground arith),
            ((λ q. same), none_left ns rest),
          )
      | inr miss ↦
          let (a, b, c) = lone ns (ground arith) in
          (a, (ground arith), ((λ q. absurd (ground arith)), c))
    ]
