-- ===== src/Node/Prune/Plan.antt =====
-- What a plan of src/lib/nodedb.ts removes and keeps.
use hop_watch.Prelude.{
  ℕ, suc, ◌+◌, ◌≡◌, refl, sym, ap, ◌∙◌, Bool, true, false, not, ◌&&◌, ◌||◌, List, [], ◌∷◌, ◌++◌,
  arith, ◌==◌, if◌then◌else◌, if-cases, length, any, length-append,
}
use mathlib.Core.List.{append-nil, append_assoc}
use hop_watch.Node.Prune.{
  NodeDbEntryLite, NodeDbPlan, PruneOpts, is_infra, is_stale, plan_node, plan_all,
  plan_node_db_prune,
}

abbrev pub listed : ℕ → List ℕ → Bool
listed i = any (λ j. j == i)

-- The nodes that may go: neither the own node nor number 0, no infrastructure, and stale.
abbrev pub removable : ℕ → PruneOpts → NodeDbEntryLite → Bool
removable mine opts n =
    not (n.num == mine || n.num == 0) && not (is_infra opts n) && is_stale opts n

abbrev pub favored : ℕ → PruneOpts → NodeDbEntryLite → Bool
favored mine opts n =
    not (n.num == mine || n.num == 0) && is_infra opts n && opts.favorite_repeaters

abbrev pub nums : (NodeDbEntryLite → Bool) → List NodeDbEntryLite → List ℕ
nums p [] = []
nums p (n ∷ ns) = if p n then n.num ∷ nums p ns else nums p ns

-- A plan that has grown by the nodes.
record Grown (mine : ℕ) (opts : PruneOpts) (ns : List NodeDbEntryLite) (p q : NodeDbPlan)
    : Type 0 where
  remove : q.remove ≡ p.remove ++ nums (removable mine opts) ns
  favorite : q.favorite ≡ p.favorite ++ nums (favored mine opts) ns
  total :
      length q.remove + length q.favorite + length q.keep
      ≡ length p.remove + length p.favorite + length p.keep + length ns

none_added : (xs : List ℕ) (y : ℕ) (b : Bool) → b ≡ false → xs ≡ xs ++ (if b then y ∷ [] else [])
none_added xs y b h = rw h (sym (append-nil xs))

one_added :
    (xs : List ℕ) (y : ℕ) (b : Bool) → b ≡ true → xs ++ y ∷ [] ≡ xs ++ (if b then y ∷ [] else [])
one_added xs y b h = rw h refl

longer : (xs : List ℕ) (y : ℕ) → length (xs ++ y ∷ []) ≡ suc (length xs)
longer xs y = omega (arith, length-append xs (y ∷ []))

plan_node-Grown :
    (mine : ℕ) (opts : PruneOpts) (n : NodeDbEntryLite) (p : NodeDbPlan)
    → Grown mine opts (n ∷ []) p (plan_node mine opts n p)
unfolding plan_node
plan_node-Grown mine opts n p =
    if-cases (Grown mine opts (n ∷ []) p) (n.num == mine || n.num == 0)
      (λ own. kept (ground arith) (ground arith))
      (λ other.
        if-cases (Grown mine opts (n ∷ []) p) (is_infra opts n)
          (λ infra.
            if-cases (Grown mine opts (n ∷ []) p) opts.favorite_repeaters
              (λ wanted. record {
                remove = none_added p.remove n.num (removable mine opts n) (ground arith);
                favorite = one_added p.favorite n.num (favored mine opts n) (ground arith);
                total = omega (arith, longer p.favorite n.num);
              })
              (λ unwanted. kept (ground arith) (ground arith)))
          (λ plain.
            if-cases (Grown mine opts (n ∷ []) p) (is_stale opts n)
              (λ stale. record {
                remove = one_added p.remove n.num (removable mine opts n) (ground arith);
                favorite = none_added p.favorite n.num (favored mine opts n) (ground arith);
                total = omega (arith, longer p.remove n.num);
              })
              (λ recent. kept (ground arith) (ground arith))))
  where
    kept :
        removable mine opts n ≡ false
        → favored mine opts n ≡ false
        → Grown mine opts (n ∷ []) p (record p { keep = p.keep ++ n.num ∷ [] })
    kept a b = record {
      remove = none_added p.remove n.num (removable mine opts n) a;
      favorite = none_added p.favorite n.num (favored mine opts n) b;
      total = omega (arith, longer p.keep n.num);
    }

nums-cons :
    (f : NodeDbEntryLite → Bool) (n : NodeDbEntryLite) (ns : List NodeDbEntryLite)
    → nums f (n ∷ []) ++ nums f ns ≡ nums f (n ∷ ns)
nums-cons f n ns = ground arith

plan_all-Grown :
    (mine : ℕ) (opts : PruneOpts) (ns : List NodeDbEntryLite) (p : NodeDbPlan)
    → Grown mine opts ns p (plan_all mine opts ns p)
unfolding plan_all
plan_all-Grown mine opts [] p = record {
  remove = sym (append-nil p.remove);
  favorite = sym (append-nil p.favorite);
  total = omega arith;
}
plan_all-Grown mine opts (n ∷ ns) p =
    let g = plan_node-Grown mine opts n p in
    let h = plan_all-Grown mine opts ns (plan_node mine opts n p) in
    record {
      remove =
          h.remove
          ∙ ap (λ l. l ++ nums (removable mine opts) ns) g.remove
          ∙ append_assoc p.remove (nums (removable mine opts) (n ∷ []))
              (nums (removable mine opts) ns)
          ∙ ap (p.remove ++◌) (nums-cons (removable mine opts) n ns);
      favorite =
          h.favorite
          ∙ ap (λ l. l ++ nums (favored mine opts) ns) g.favorite
          ∙ append_assoc p.favorite (nums (favored mine opts) (n ∷ []))
              (nums (favored mine opts) ns)
          ∙ ap (p.favorite ++◌) (nums-cons (favored mine opts) n ns);
      total = (let a = g.total in let b = h.total in omega arith);
    }

-- The plan removes just the nodes that are stale, are not infrastructure, and are neither the own
-- node nor number 0; it favorites just the infrastructure among the others, where that is wanted;
-- and the plan has as many entries as there are nodes.
pub plan_node_db_prune_lem :
    (nodes : List NodeDbEntryLite) (mine : ℕ) (opts : PruneOpts)
    → ((plan_node_db_prune nodes mine opts).remove ≡ nums (removable mine opts) nodes)
      × ((plan_node_db_prune nodes mine opts).favorite ≡ nums (favored mine opts) nodes)
      × (length (plan_node_db_prune nodes mine opts).remove
            + length (plan_node_db_prune nodes mine opts).favorite
            + length (plan_node_db_prune nodes mine opts).keep
          ≡ length nodes)
unfolding plan_node_db_prune
plan_node_db_prune_lem nodes mine opts =
    let g = plan_all-Grown mine opts nodes (record { favorite = []; remove = []; keep = [] }) in
    (g.remove, g.favorite, (let t = g.total in omega arith))
