-- ===== src/Scheduler/Framework.antt =====
-- tugboat-scheduler/src/framework/mod.rs and plugin.rs: the plugins and the pipeline that filters
-- the nodes, scores those left and takes the best.
pub mod Passes
pub mod Choice
use tugboat.Base.{
  ℕ, String, Bool, true, false, Option, none, some, List, [], ◌∷◌, ◌++◌, map, filter, first,
  is_empty, if◌then◌else◌,
}
use tugboat.Base.Int.{ℤ, pos, ◌+ℤ◌, ltb_ℤ}
use tugboat.Manifests.Node.{Node}
use tugboat.Scheduler.Context.{SchedulingContext}
use mathlib.Core.Option

-- The messages of the rejections: a constructor for each `format!`, with its arguments.
pub data Reason : Type 0 where
  unschedulable : Reason
  insufficient_cpu : (requested available : ℕ) → Reason
  insufficient_memory : (requested available : ℕ) → Reason
  not_tolerated : (key value : String) → Reason
  node_affinity_not_satisfied : (key : String) → Reason
  ship_affinity_not_satisfied : (topology_key : String) → Reason
  ship_anti_affinity_not_satisfied : (topology_key : String) → Reason
  spread_key_missing : (topology_key : String) → Reason
  exceeds_max_skew : (topology_key : String) (max_skew : ℤ) → Reason
  no_network_status : Reason
  unsupported_api_group : (name api_group : String) → Reason
  cluster_network_class_not_found : (name : String) → Reason
  network_class_not_found : (namespace name : String) → Reason
  unsupported_kind : (name kind : String) → Reason
  no_ready_nodes : (name : String) → Reason
  no_metadata_name : Reason
  not_ready_on_node : (name node : String) → Reason
  unsupported_cni_plugin : (name plugin : String) → Reason
  plugin_not_advertised : (plugin : String) → Reason
  plugin_not_ready : (plugin : String) → Reason
  plugin_not_ready_message : (plugin message : String) → Reason
  no_runtime_class_label : Reason
  runtime_class_mismatch : (node_class requested : String) → Reason
  runtime_class_not_found : (name : String) → Reason
  no_live_migration : (name : String) → Reason
  claim_not_shared : (pvc : String) → Reason
  volume_not_shared : (pv : String) → Reason
  claim_selected_elsewhere : (pvc node : String) → Reason
  allowed_topologies_mismatch : (pvc storage_class : String) → Reason
  volume_affinity_not_satisfied : (pv key : String) → Reason

pub data FilterResult : Type 0 where
  accept : FilterResult
  reject : Reason → FilterResult

pub data ScoreResult : Type 0 where
  score : ℤ → ScoreResult
  skip : ScoreResult

pub record FilterPlugin : Type 0 where
  pub name : String
  pub filter : SchedulingContext → Node → FilterResult

pub record ScorePlugin : Type 0 where
  pub name : String
  pub score : SchedulingContext → Node → ScoreResult

pub record Framework : Type 0 where
  pub filter_plugins : List FilterPlugin
  pub score_plugins : List ScorePlugin

unfoldable pub new : Framework
new = record { filter_plugins = []; score_plugins = [] }

unfoldable pub add_filter_plugin : Framework → FilterPlugin → Framework
add_filter_plugin fw plugin = record fw { filter_plugins = fw.filter_plugins ++ plugin ∷ [] }

unfoldable pub add_score_plugin : Framework → ScorePlugin → Framework
add_score_plugin fw plugin = record fw { score_plugins = fw.score_plugins ++ plugin ∷ [] }

-- The loop over the plugins: the first rejection ends it.
pub passes : List FilterPlugin → SchedulingContext → Node → Bool
passes [] ctx node = true
passes (plugin ∷ plugins) ctx node =
    let rest = passes plugins ctx node in
    elim (plugin.filter ctx node) [ accept ↦ rest | reject reason ↦ false ]

unfoldable pub filter_nodes : Framework → SchedulingContext → List Node → List Node
unfolding passes
filter_nodes fw ctx nodes = filter (passes fw.filter_plugins ctx) nodes

abbrev score_value : ScoreResult → ℤ
score_value (score s) = s
score_value skip = pos 0

-- The sum of the plugins' scores. The source adds them as i64.
unfoldable pub total_score : List ScorePlugin → SchedulingContext → Node → ℤ
total_score [] ctx node = pos 0
total_score (plugin ∷ plugins) ctx node =
    score_value (plugin.score ctx node) +ℤ total_score plugins ctx node

-- `sort_by_key(|(_, score)| Reverse(*score))`, which is stable: an entry goes in front of the
-- later entries with its score.
insert_scored : Node × ℤ → List (Node × ℤ) → List (Node × ℤ)
insert_scored x [] = x ∷ []
insert_scored x (y ∷ ys) =
    let rest = insert_scored x ys in if ltb_ℤ x.1 y.1 then y ∷ rest else x ∷ y ∷ ys

sort_scored : List (Node × ℤ) → List (Node × ℤ)
sort_scored [] = []
sort_scored (x ∷ xs) = insert_scored x (sort_scored xs)

unfoldable pub score_nodes : Framework → SchedulingContext → List Node → List (Node × ℤ)
unfolding total_score insert_scored sort_scored
score_nodes fw ctx nodes =
    sort_scored (map (λ node. (node, total_score fw.score_plugins ctx node)) nodes)

unfoldable pub schedule : Framework → SchedulingContext → List Node → Option Node
unfolding filter_nodes score_nodes
schedule fw ctx nodes =
    let filtered = filter_nodes fw ctx nodes in
    if is_empty filtered
    then none
    else Option.map (λ (p : Node × ℤ). p.0) (first (score_nodes fw ctx filtered))
