-- ===== src/Ingest/Pipeline/Traced.antt =====
-- What a traceroute leaves behind beside its event: recordTraceroute of src/db/topology.ts, and the
-- nodes that it names, src/ingest/pipeline.ts.
use hop_watch.Prelude.{
  ℕ, zero, suc, ◌+◌, ◌-◌, not, ◌&&◌, ◌||◌, Option, none, some, List, [], ◌∷◌, ◌++◌, ltb, ◌==◌,
  if◌then◌else◌, length, filter,
}
use hop_watch.Prelude.Int.{ℤ}
use hop_watch.Stats.Topology.{PathEdge, path_edges}
use hop_watch.Ingest.Pipeline.Envelope.{Trace}
use hop_watch.Ingest.Pipeline.Statements.{coalesce, upsert}
use hop_watch.Ingest.Pipeline.Nodes.{NodeTables, stub_node}

pub record MeshLink : Type 0 where
  pub a_node_id : ℕ
  pub b_node_id : ℕ
  pub first_seen_at : ℕ
  pub last_seen_at : ℕ
  pub last_snr : Option ℤ
  pub times_seen : ℕ

pub record TraceState : Type 0 where
  pub node_id : ℕ
  pub last_result_at : ℕ
  pub attempts : ℕ
  pub last_hop_count : ℕ

pub record TopologyTables : Type 0 where
  pub mesh_links : List MeshLink
  pub trace_states : List TraceState

-- `snrTowards[i]`.
snr_at : List ℤ → ℕ → Option ℤ
snr_at [] i = none
snr_at (v ∷ vs) zero = some v
snr_at (v ∷ vs) (suc i) = snr_at vs i

unfoldable pub link_edges : ℕ → List (PathEdge ℤ) → List MeshLink → List MeshLink
link_edges now [] rows = rows
link_edges now (e ∷ es) rows = link_edges now es (
    upsert (λ r. r.a_node_id == e.a && r.b_node_id == e.b)
      (λ r. record r {
        last_seen_at = now;
        last_snr = coalesce e.snr r.last_snr;
        times_seen = r.times_seen + 1;
      })
      (record {
        a_node_id = e.a;
        b_node_id = e.b;
        first_seen_at = now;
        last_seen_at = now;
        last_snr = e.snr;
        times_seen = 1;
      })
      rows)

last_or : ℕ → List ℕ → ℕ
last_or d [] = d
last_or d (x ∷ xs) = last_or x xs

-- `[...new Set(endpoints)]` of those that are there and above 0.
unfoldable pub endpoints : List ℕ → List ℕ
unfolding last_or
endpoints [] = []
endpoints (x ∷ xs) =
    let y = last_or x xs in filter (λ n. not (n == 0)) (if x == y then x ∷ [] else x ∷ y ∷ [])

unfoldable pub mark_fresh : ℕ → ℕ → List ℕ → List TraceState → List TraceState
mark_fresh now hops [] rows = rows
mark_fresh now hops (n ∷ ns) rows = mark_fresh now hops ns (
    upsert (λ r. r.node_id == n) (λ r. record r { last_result_at = now; last_hop_count = hops })
      (record { node_id = n; last_result_at = now; attempts = 0; last_hop_count = hops }) rows)

unfoldable pub record_traceroute : ℕ → List ℕ → List ℤ → TopologyTables → TopologyTables
unfolding snr_at link_edges endpoints mark_fresh
record_traceroute now path snrs t = record {
  mesh_links = link_edges now (path_edges path (snr_at snrs)) t.mesh_links;
  trace_states = mark_fresh now (length path - 1) (endpoints path) t.trace_states;
}

-- `new Set(…)`, in the order of insertion.
unfoldable pub distinct_nodes : List ℕ → List ℕ
distinct_nodes [] = []
distinct_nodes (x ∷ xs) = x ∷ filter (λ y. not (y == x)) (distinct_nodes xs)

-- `p.to && p.to !== 0xffffffff ? [p.to] : []`.
target_nodes : Option ℕ → List ℕ
target_nodes none = []
target_nodes (some n) = if n == 0 || n == 0xffffffff then [] else n ∷ []

unfoldable pub traced_nodes : ℕ → Option ℕ → Trace → List ℕ
unfolding target_nodes distinct_nodes
traced_nodes from to tr =
    distinct_nodes (filter (ltb 0) (from ∷ (target_nodes to ++ (tr.route ++ tr.route_back))))

unfoldable pub stub_nodes : ℕ → List ℕ → NodeTables → NodeTables
unfolding stub_node
stub_nodes seen_at [] t = t
stub_nodes seen_at (n ∷ ns) t = stub_nodes seen_at ns (stub_node seen_at n t)
