-- ===== src/Stats/Topology.antt =====
-- Edges of traceroute paths, src/lib/topology.ts. The `snr` of a hop is of any type.
use hop_watch.Prelude.{
  ℕ, suc, ◌<◌, ◌||◌, Option, List, [], ◌∷◌, arith, leb, ◌==◌, if◌then◌else◌, if-cases, All,
}

abbrev pub canonical_edge : ℕ → ℕ → ℕ × ℕ
canonical_edge a b = if leb a b then (a, b) else (b, a)

pub record PathEdge (S : Type 0) : Type 0 where
  pub a : ℕ
  pub b : ℕ
  pub snr : Option S

module _ {S : Type 0} where
  -- The loop from hop `i` on.
  unfoldable pub edges_from : ℕ → List ℕ → (ℕ → Option S) → List (PathEdge S)
  edges_from i [] snr_at = []
  edges_from i (x ∷ []) snr_at = []
  edges_from i (x ∷ y ∷ path) snr_at =
      let rest = edges_from (suc i) (y ∷ path) snr_at in
      if x == 0 || y == 0 || x == y
      then rest
      else let e = canonical_edge x y in record { a = e.0; b = e.1; snr = snr_at i } ∷ rest

  unfoldable pub path_edges : List ℕ → (ℕ → Option S) → List (PathEdge S)
  unfolding edges_from
  path_edges path snr_at = edges_from 0 path snr_at

  edges_from_canonical :
      (i : ℕ) (path : List ℕ) (snr_at : ℕ → Option S)
      → All (λ e. (0 < e.a) × (e.a < e.b)) (edges_from i path snr_at)
  unfolding edges_from
  edges_from_canonical i [] snr_at = tt
  edges_from_canonical i (x ∷ []) snr_at = tt
  edges_from_canonical i (x ∷ y ∷ path) snr_at =
      if-cases (All (λ e. (0 < e.a) × (e.a < e.b))) (x == 0 || y == 0 || x == y)
        (λ _. edges_from_canonical (suc i) (y ∷ path) snr_at)
        (λ real. ((ground arith, ground arith), edges_from_canonical (suc i) (y ∷ path) snr_at))

  -- Every edge of a path joins two nodes with numbers above 0, the smaller first, so that an edge
  -- has one key and none joins a node to itself.
  pub path_edges_canonical :
      (path : List ℕ) (snr_at : ℕ → Option S)
      → All (λ e. (0 < e.a) × (e.a < e.b)) (path_edges path snr_at)
  unfolding path_edges
  path_edges_canonical path snr_at = edges_from_canonical 0 path snr_at
