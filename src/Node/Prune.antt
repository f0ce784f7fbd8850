-- ===== src/Node/Prune.antt =====
-- Which nodes the station node's own database drops, src/lib/nodedb.ts. Times are seconds. The role
-- of an entry is given in upper case, the form in which the source compares it.
pub mod Plan
mod Tests
use hop_watch.Prelude.{
  ℕ, ◌+◌, ◌*◌, String, Bool, ◌||◌, Option, none, some, List, [], ◌∷◌, ◌++◌, str_eq, ltb, ◌==◌,
  if◌then◌else◌, any,
}

abbrev pub repeater_roles : List String
repeater_roles = "ROUTER" ∷ "REPEATER" ∷ "ROUTER_CLIENT" ∷ "ROUTER_LATE" ∷ []

pub record NodeDbEntryLite : Type 0 where
  pub num : ℕ
  pub role : Option String
  pub last_heard : ℕ

pub record NodeDbPlan : Type 0 where
  pub favorite : List ℕ
  pub remove : List ℕ
  pub keep : List ℕ

pub record PruneOpts : Type 0 where
  pub stale_days : ℕ
  pub favorite_repeaters : Bool
  pub repeater_nums : List ℕ
  pub now_sec : ℕ

abbrev pub role_text : Option String → String
role_text none = ""
role_text (some r) = r

unfoldable pub is_infra : PruneOpts → NodeDbEntryLite → Bool
is_infra opts n =
    any (λ r. str_eq r (role_text n.role)) repeater_roles
    || any (λ i. i == n.num) opts.repeater_nums

-- `n.last_heard < opts.nowSec - opts.staleDays * 86400`.
unfoldable pub is_stale : PruneOpts → NodeDbEntryLite → Bool
is_stale opts n = ltb (n.last_heard + opts.stale_days * 86400) opts.now_sec

-- One round of the loop, on the plan so far.
unfoldable pub plan_node : ℕ → PruneOpts → NodeDbEntryLite → NodeDbPlan → NodeDbPlan
unfolding is_infra is_stale
plan_node my_node_num opts n plan =
    if n.num == my_node_num || n.num == 0
    then record plan { keep = plan.keep ++ n.num ∷ [] }
    else if is_infra opts n
    then if opts.favorite_repeaters
      then record plan { favorite = plan.favorite ++ n.num ∷ [] }
      else record plan { keep = plan.keep ++ n.num ∷ [] }
    else if is_stale opts n
    then record plan { remove = plan.remove ++ n.num ∷ [] }
    else record plan { keep = plan.keep ++ n.num ∷ [] }

unfoldable pub plan_all : ℕ → PruneOpts → List NodeDbEntryLite → NodeDbPlan → NodeDbPlan
unfolding plan_node
plan_all my_node_num opts [] plan = plan
plan_all my_node_num opts (n ∷ ns) plan =
    plan_all my_node_num opts ns (plan_node my_node_num opts n plan)

unfoldable pub plan_node_db_prune : List NodeDbEntryLite → ℕ → PruneOpts → NodeDbPlan
unfolding plan_all
plan_node_db_prune nodes my_node_num opts =
    plan_all my_node_num opts nodes (record { favorite = []; remove = []; keep = [] })
