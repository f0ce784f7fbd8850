-- ===== src/Node/Prune/Tests.antt =====
-- A plan for four nodes, and the theorem at concrete values.
use hop_watch.Prelude.{ℕ, ◌+◌, String, ◌≡◌, refl, true, some, List, [], ◌∷◌, length}
use hop_watch.Node.Prune.{
  NodeDbEntryLite, PruneOpts, is_infra, is_stale, plan_node, plan_all, plan_node_db_prune,
}
use hop_watch.Node.Prune.Plan.{nums, removable, favored, plan_node_db_prune_lem}

abbrev entry : ℕ → String → ℕ → NodeDbEntryLite
entry i r t = record { num = i; role = some r; last_heard = t }

abbrev entries : List NodeDbEntryLite
entries =
    entry 1 "CLIENT" 0 ∷ entry 2 "ROUTER" 0 ∷ entry 3 "CLIENT" 10 ∷ entry 4 "CLIENT" 999000 ∷ []

abbrev opts : PruneOpts
opts = record { stale_days = 1; favorite_repeaters = true; repeater_nums = []; now_sec = 1000000 }

plan_run : (plan_node_db_prune entries 1 opts).remove ≡ 3 ∷ []
unfolding plan_node_db_prune plan_all plan_node is_infra is_stale
plan_run = refl

plan_node_db_prune_lem_example :
    ((plan_node_db_prune entries 1 opts).remove ≡ nums (removable 1 opts) entries)
    × ((plan_node_db_prune entries 1 opts).favorite ≡ nums (favored 1 opts) entries)
    × (length (plan_node_db_prune entries 1 opts).remove
          + length (plan_node_db_prune entries 1 opts).favorite
          + length (plan_node_db_prune entries 1 opts).keep
        ≡ 4)
plan_node_db_prune_lem_example = plan_node_db_prune_lem entries 1 opts
