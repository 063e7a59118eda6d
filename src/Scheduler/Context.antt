-- ===== src/Scheduler/Context.antt =====
-- tugboat-scheduler/src/framework/types.rs: the context of one scheduling cycle and its queries.
pub mod Usage
use tugboat.Base.{
  ℕ, ◌+◌, ◌*◌, ◌≡◌, refl, String, Bool, false, not, ◌&&◌, Option, none, some, List, [], ◌∷◌, min,
  ◌>>=◌, is_some_and, unwrap_or, keep_if, find, filter_map, if◌then◌else◌, ◌==◌,
}
use tugboat.Base.Float.{F64, fractions}
use tugboat.Base.Text.{trim, is_blank, strip_suffix, parse_u64, u64_max}
use tugboat.Manifests.Meta.{meta_name, meta_namespace, is_named}
use tugboat.Manifests.Network.{ClusterNetworkClass, NetworkClass}
use tugboat.Manifests.Node.{Node, RuntimeClass}
use tugboat.Manifests.Ship.{Ship, ShipClass, ShipClassSpec, ShipVolume}
use tugboat.Manifests.Storage.{PersistentVolume, PersistentVolumeClaim, StorageClass}
use mathlib.Core.Option

pub record SchedulingContext : Type 0 where
  pub ship : Ship
  pub ship_class : ShipClass
  pub all_cluster_network_classes : List ClusterNetworkClass
  pub all_network_classes : List NetworkClass
  pub all_runtime_classes : List RuntimeClass
  pub all_ships : List Ship
  pub all_nodes : List Node
  pub all_ship_classes : List ShipClass
  pub all_persistent_volume_claims : List PersistentVolumeClaim
  pub all_persistent_volumes : List PersistentVolume
  pub all_storage_classes : List StorageClass

-- `u64::saturating_add`.
abbrev pub saturating_add : ℕ → ℕ → ℕ
saturating_add a b = min (a + b) u64_max

-- The first suffix that fits, with the text in front of it.
memory_suffix : List String → String → Option (String × String)
memory_suffix [] s = none
memory_suffix (suffix ∷ more) s =
    let rest = memory_suffix more s in
    elim (strip_suffix s suffix) [ none ↦ rest | some number ↦ some (number, suffix) ]

abbrev memory_suffixes : List String
memory_suffixes = "Gi" ∷ "Mi" ∷ "Ki" ∷ "Ti" ∷ "G" ∷ "M" ∷ "K" ∷ "T" ∷ []

memory_multiplier : String → Option ℕ
memory_multiplier suffix =
    if suffix == "Ki"
    then some 1024
    else if suffix == "Mi"
    then some (1024 * 1024)
    else if suffix == "Gi"
    then some (1024 * 1024 * 1024)
    else if suffix == "Ti"
    then some (1024 * 1024 * 1024 * 1024)
    else if suffix == "K"
    then some 1000
    else if suffix == "M"
    then some (1000 * 1000)
    else if suffix == "G"
    then some (1000 * 1000 * 1000)
    else if suffix == "T"
    then some (1000 * 1000 * 1000 * 1000)
    else none

module _ (fl : F64) where
  -- The size of a number with a suffix; none where the source returns 0.
  scaled_memory_size : String → Option ℕ
  scaled_memory_size s = do
    (number, suffix) ← memory_suffix memory_suffixes s
    num ← fl.parse_f64 number
    multiplier ← memory_multiplier suffix
    let result = fl.mul num (fl.of_u64 multiplier)
    some (if fl.ge result (fl.of_u64 u64_max) then u64_max else fl.to_u64 result)

  pub parse_memory_size : String → ℕ
  unfolding scaled_memory_size memory_suffix memory_multiplier
  parse_memory_size text =
      let s = trim text in
      if is_blank s
      then 0
      else elim (parse_u64 s) [ some bytes ↦ bytes | none ↦ unwrap_or (scaled_memory_size s) 0 ]

  -- The CPU cores and the bytes of memory that a class asks for.
  pub class_resources : Option ShipClassSpec → ℕ × ℕ
  class_resources spec = (
    unwrap_or (do s ← spec; cpu ← s.cpu; some cpu.cores) 0,
    unwrap_or (do s ← spec; memory ← s.memory; some (parse_memory_size memory.size)) 0,
  )

abbrev pub class_named : String → ShipClass → Bool
class_named name sc = is_named (meta_name sc.object_meta) name

unfoldable pub find_ship_class : SchedulingContext → String → Option ShipClass
find_ship_class ctx name = find (class_named name) ctx.all_ship_classes

abbrev pub assigned_node : Ship → Option String
assigned_node ship = do spec ← ship.spec; spec.node_name

abbrev pub ship_class_name : Ship → String
ship_class_name ship = unwrap_or (Option.map (λ s. s.ship_class) ship.spec) ""

module _ (fl : F64) (ctx : SchedulingContext) where
  -- One round of the loop: what the ship's class adds to the usage so far.
  add_class : ℕ × ℕ → Option ShipClass → ℕ × ℕ
  add_class used none = used
  add_class (cpu_used, memory_used) (some sc) =
      let (cpu, memory) = class_resources fl sc.spec in
      (saturating_add cpu_used cpu, saturating_add memory_used memory)

  usage_loop : String → ℕ × ℕ → List Ship → ℕ × ℕ
  usage_loop node_name used [] = used
  usage_loop node_name used (ship ∷ ships) =
      usage_loop node_name
        (if is_named (assigned_node ship) node_name
          then add_class used (find_ship_class ctx (ship_class_name ship))
          else used)
        ships

  unfoldable pub node_resource_usage : String → ℕ × ℕ
  unfolding usage_loop add_class find_ship_class class_resources parse_memory_size
  node_resource_usage node_name = usage_loop node_name (0, 0) ctx.all_ships

  unfoldable pub requested_resources : ℕ × ℕ
  requested_resources = class_resources fl ctx.ship_class.spec

unfoldable pub ship_namespace : SchedulingContext → String
ship_namespace ctx = unwrap_or (meta_namespace ctx.ship.object_meta) "default"

abbrev claim_named : String → String → PersistentVolumeClaim → Bool
claim_named namespace name pvc =
    is_named (meta_name pvc.object_meta) name && is_named (meta_namespace pvc.object_meta) namespace

-- The claim that a volume of the ship refers to.
claim_of_volume : SchedulingContext → ShipVolume → Option PersistentVolumeClaim
claim_of_volume ctx volume = do
  source ← volume.persistent_volume_claim
  find (claim_named (ship_namespace ctx) source.claim_name) ctx.all_persistent_volume_claims

unfoldable pub ship_persistent_volume_claims : SchedulingContext → List PersistentVolumeClaim
unfolding claim_of_volume ship_namespace
ship_persistent_volume_claims ctx = elim ctx.ship.spec [
  | none ↦ []
  | some spec ↦ filter_map (claim_of_volume ctx) spec.volumes
]

-- The volume that a claim is bound to; the name "" stands for none.
unfoldable pub volume_of_claim : SchedulingContext → PersistentVolumeClaim → Option PersistentVolume
volume_of_claim ctx pvc =
    let pv_name = unwrap_or (do spec ← pvc.spec; spec.volume_name) "" in
    if is_blank pv_name
    then none
    else find (λ pv. is_named (meta_name pv.object_meta) pv_name) ctx.all_persistent_volumes

unfoldable pub ship_bound_persistent_volumes : SchedulingContext → List PersistentVolume
unfolding volume_of_claim ship_persistent_volume_claims
ship_bound_persistent_volumes ctx =
    filter_map (volume_of_claim ctx) (ship_persistent_volume_claims ctx)

unfoldable pub find_cluster_network_class : SchedulingContext → String → Option ClusterNetworkClass
find_cluster_network_class ctx name =
    find (λ c. is_named (meta_name c.object_meta) name) ctx.all_cluster_network_classes

unfoldable pub find_network_class : SchedulingContext → String → String → Option NetworkClass
find_network_class ctx namespace name =
    find
      (λ c.
        is_named (meta_name c.object_meta) name
        && is_named (meta_namespace c.object_meta) namespace)
      ctx.all_network_classes

unfoldable pub find_runtime_class : SchedulingContext → String → Option RuntimeClass
find_runtime_class ctx name =
    find (λ c. is_named (meta_name c.object_meta) name) ctx.all_runtime_classes

unfoldable pub find_storage_class : SchedulingContext → String → Option StorageClass
find_storage_class ctx name =
    find (λ c. is_named (meta_name c.object_meta) name) ctx.all_storage_classes

abbrev pub not_empty : String → Bool
not_empty s = not (is_blank s)

-- `volume_binding_mode.as_deref() == Some("WaitForFirstConsumer")`.
abbrev pub waits_for_consumer : Option StorageClass → Bool
waits_for_consumer sc =
    is_named (do c ← sc; spec ← c.spec; spec.volume_binding_mode) "WaitForFirstConsumer"

unfoldable pub is_unbound_wffc_claim : SchedulingContext → PersistentVolumeClaim → Bool
unfolding find_storage_class
is_unbound_wffc_claim ctx pvc = elim pvc.spec [
  | none ↦ false
  | some spec ↦
      if is_some_and spec.volume_name not_empty
      then false
      else elim (keep_if not_empty spec.storage_class_name) [
        | none ↦ false
        | some name ↦ waits_for_consumer (find_storage_class ctx name)
      ]
]

memory_tests :
    (parse_memory_size fractions "1Gi" ≡ 1024 * 1024 * 1024)
    × (parse_memory_size fractions "512Mi" ≡ 512 * 1024 * 1024)
    × (parse_memory_size fractions "1G" ≡ 1_000_000_000)
    × (parse_memory_size fractions "1024" ≡ 1024)
    × (parse_memory_size fractions "" ≡ 0)
    × (parse_memory_size fractions "2Ti" ≡ 2 * 1024 * 1024 * 1024 * 1024)
unfolding parse_memory_size strip_suffix parse_u64 trim
memory_tests = (refl, refl, refl, refl, refl, refl)
