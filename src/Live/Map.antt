-- ===== src/Live/Map.antt =====
-- Which lines the live map draws for receptions, src/lib/livemap.ts. Positions are of any type: they
-- are passed on and never computed with.
pub mod Honest
pub mod Coalesce
mod Tests
use hop_watch.Prelude.{
  ℕ, zero, ◌%◌, Bool, true, false, not, ◌||◌, Option, none, some, List, [], ◌∷◌, ◌++◌, map, ◌==◌,
  if◌then◌else◌, filter, any,
}

pub record LiveReception : Type 0 where
  pub packet_id : ℕ
  pub from : ℕ
  pub gateway : ℕ
  pub hop_start : Option ℕ
  pub hop_limit : Option ℕ
  pub relay_node : Option ℕ

pub record ResolveCtx (P : Type 0) : Type 0 where
  pub pos_of : ℕ → Option P
  pub relay_resolver : ℕ → Option ℕ

pub data SegmentLabel : Type 0 where
  source_to_relay relay_to_gateway direct_line source_to_gateway : SegmentLabel

pub record Segment (P : Type 0) : Type 0 where
  pub from : P
  pub to : P
  pub observed : Bool
  pub label : SegmentLabel

pub record ResolvedReception (P : Type 0) : Type 0 where
  pub packet_id : ℕ
  pub source : ℕ
  pub source_pos : Option P
  pub gateway_id : ℕ
  pub gateway_pos : Option P
  pub relay_id : Option ℕ
  pub segments : List (Segment P)
  pub direct : Bool

-- `hopStart != null && hopLimit != null && hopStart === hopLimit`.
abbrev pub is_direct : Option ℕ → Option ℕ → Bool
is_direct (some a) (some b) = a == b
is_direct _ _ = false

module _ {P : Type 0} where
  -- The relay that is drawn, with its position: the byte is there and not zero, it stands for one
  -- node, which is neither end, and that node's position is known.
  unfoldable pub relay_of : LiveReception → ResolveCtx P → Option (ℕ × P)
  relay_of rec ctx = elim rec.relay_node [
    | none ↦ none
    | some byte ↦ if byte == 0 then none else elim (ctx.relay_resolver byte) [
      | none ↦ none
      | some id ↦
          if id == rec.from || id == rec.gateway
          then none
          else elim (ctx.pos_of id) [ none ↦ none | some p ↦ some (id, p) ]
    ]
  ]

  unfoldable pub segments_of : Bool → Option P → Option P → Option (ℕ × P) → List (Segment P)
  segments_of direct none g relay = []
  segments_of direct (some s) none relay = []
  segments_of direct (some s) (some g) (some (id, m)) =
      record { from = s; to = m; observed = true; label = source_to_relay }
      ∷ record { from = m; to = g; observed = true; label = relay_to_gateway }
      ∷ []
  segments_of direct (some s) (some g) none =
      record {
        from = s;
        to = g;
        observed = true;
        label = if direct then direct_line else source_to_gateway;
      }
      ∷ []

  abbrev pub id_of : Option (ℕ × P) → Option ℕ
  id_of none = none
  id_of (some (id, p)) = some id

  unfoldable pub resolve_reception : LiveReception → ResolveCtx P → ResolvedReception P
  unfolding relay_of segments_of
  resolve_reception rec ctx =
      let direct = is_direct rec.hop_start rec.hop_limit in
      let relay = relay_of rec ctx in
      record {
        packet_id = rec.packet_id;
        source = rec.from;
        source_pos = ctx.pos_of rec.from;
        gateway_id = rec.gateway;
        gateway_pos = ctx.pos_of rec.gateway;
        relay_id = id_of relay;
        segments = segments_of direct (ctx.pos_of rec.from) (ctx.pos_of rec.gateway) relay;
        direct = direct;
      }

pub record GatewayAnim (P : Type 0) : Type 0 where
  pub gateway_id : ℕ
  pub gateway_pos : Option P
  pub segments : List (Segment P)
  pub relay_id : Option ℕ

pub record PacketAnim (P : Type 0) : Type 0 where
  pub packet_id : ℕ
  pub source : ℕ
  pub source_pos : Option P
  pub direct : Bool
  pub gateways : List (GatewayAnim P)

abbrev pub Groups : Type 0
Groups = List (ℕ × List LiveReception)

-- Into the group of its packet, or a new group at the end.
unfoldable pub add_to_group : LiveReception → Groups → Groups
add_to_group r [] = (r.packet_id, r ∷ []) ∷ []
add_to_group r ((p, g) ∷ gs) =
    let rest = add_to_group r gs in
    if p == r.packet_id then (p, g ++ r ∷ []) ∷ gs else (p, g) ∷ rest

unfoldable pub group_all : List LiveReception → Groups → Groups
unfolding add_to_group
group_all [] gs = gs
group_all (r ∷ rs) gs = group_all rs (add_to_group r gs)

-- `r.hopStart != null && r.hopStart === r.hopLimit`.
abbrev pub hops_agree : LiveReception → Bool
hops_agree r = is_direct r.hop_start r.hop_limit

module _ {P : Type 0} where
  unfoldable pub gateway_anim : ResolveCtx P → LiveReception → GatewayAnim P
  unfolding resolve_reception
  gateway_anim ctx r =
      let res = resolve_reception r ctx in
      record {
        gateway_id = res.gateway_id;
        gateway_pos = res.gateway_pos;
        segments = res.segments;
        relay_id = res.relay_id;
      }

  -- The entry of a packet; a group is never empty.
  unfoldable pub anim_of : ResolveCtx P → ℕ × List LiveReception → PacketAnim P
  unfolding gateway_anim
  anim_of ctx (p, []) = record {
    packet_id = p;
    source = 0;
    source_pos = none;
    direct = false;
    gateways = [];
  }
  anim_of ctx (p, r ∷ rs) = record {
    packet_id = p;
    source = r.from;
    source_pos = ctx.pos_of r.from;
    direct = any hops_agree (r ∷ rs);
    gateways = map (gateway_anim ctx) (r ∷ rs);
  }

  unfoldable pub coalesce_by_packet : List LiveReception → ResolveCtx P → List (PacketAnim P)
  unfolding group_all anim_of
  coalesce_by_packet recs ctx = map (anim_of ctx) (group_all recs [])

-- The one node whose id ends in the byte, if there is just one.
abbrev pub only_one : List ℕ → Option ℕ
only_one [] = none
only_one (x ∷ []) = some x
only_one (x ∷ y ∷ xs) = none

unfoldable pub build_relay_resolver : List ℕ → ℕ → Option ℕ
build_relay_resolver nodes byte = only_one (filter (λ id. id % 256 == byte % 256) nodes)
