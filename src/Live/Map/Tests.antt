-- ===== src/Live/Map/Tests.antt =====
-- A burst of three receptions on a small map, and the theorems at concrete values.
use hop_watch.Prelude.{
  ℕ, ◌≡◌, refl, true, Option, none, some, List, [], ◌∷◌, map, ◌==◌, if◌then◌else◌, length,
}
use hop_watch.Live.Map.{
  LiveReception, ResolveCtx, gateway_anim, resolve_reception, relay_of, segments_of,
  build_relay_resolver, coalesce_by_packet, group_all, add_to_group, anim_of,
}
use hop_watch.Live.Map.Coalesce.{gateways_of, single_entries, of_packet, coalesce_by_packet_lem}

abbrev nodes : List ℕ
nodes = 513 ∷ 258 ∷ 771 ∷ []

-- The position of a node is its own number.
abbrev ctx : ResolveCtx ℕ
ctx = record {
  pos_of = λ n. if n == 9 then none else some n;
  relay_resolver = build_relay_resolver nodes;
}

abbrev heard : ℕ → ℕ → Option ℕ → LiveReception
heard p g relay = record {
  packet_id = p;
  from = 7;
  gateway = g;
  hop_start = some 3;
  hop_limit = some 2;
  relay_node = relay;
}

abbrev burst : List LiveReception
burst = heard 1 100 (some 1) ∷ heard 2 100 none ∷ heard 1 101 (some 2) ∷ []

relay_run : map (λ s. s.to) (resolve_reception (heard 1 100 (some 1)) ctx).segments ≡ 513 ∷ 100 ∷ []
unfolding resolve_reception relay_of segments_of build_relay_resolver
relay_run = refl

-- A zero-hop reception is drawn over the node that its relay byte stands for.
abbrev zero_hop : LiveReception
zero_hop = record (heard 1 100 (some 1)) { hop_limit = some 3 }

zero_hop_run : map (λ s. s.to) (resolve_reception zero_hop ctx).segments ≡ 513 ∷ 100 ∷ []
unfolding resolve_reception relay_of segments_of build_relay_resolver
zero_hop_run = refl

coalesce_run : map (λ a. length a.gateways) (coalesce_by_packet burst ctx) ≡ 2 ∷ 1 ∷ []
unfolding coalesce_by_packet group_all add_to_group anim_of
coalesce_run = refl

coalesce_by_packet_lem_example :
    (single_entries (coalesce_by_packet burst ctx) ≡ true)
    × (gateways_of 1 (coalesce_by_packet burst ctx) ≡ map (gateway_anim ctx) (of_packet 1 burst))
coalesce_by_packet_lem_example = coalesce_by_packet_lem burst ctx 1
