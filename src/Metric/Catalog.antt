-- ===== src/Metric/Catalog.antt =====
-- internal/metric/catalog.go: the catalogue of metrics, and which metric stands for another on some
-- engine. An engine and a slot are strings, and the empty slot is none. The table `Metrics` of
-- internal/metric/dictionary.go is a parameter.
pub mod Resolution
mod Tests
use dbs_monitor.Prelude.{
  String, Bool, true, false, not, Option, none, some, List, [], ◌∷◌, if◌then◌else◌, str_eq,
}
use dbs_monitor.Metric.Aggregate.{MetricAggregation, aggregation_none}

pub data MetricLevel : Type 0 where
  level_instance level_database : MetricLevel

pub data MetricProducer : Type 0 where
  server_task agent control_plane : MetricProducer

-- Of an entry of the table, what this code and the evaluator read.
pub record Metric : Type 0 where
  pub id : String
  pub engine : String
  pub level : MetricLevel
  pub aggregation : MetricAggregation
  pub weight : String
  pub slot : String
  pub producer : MetricProducer

abbrev pub engine_agnostic : String
engine_agnostic = "AGNOSTIC"

abbrev pub semantic_slots : List String
semantic_slots =
    "throughput" ∷ "connections" ∷ "connection_saturation" ∷ "probe_latency" ∷ "rollback_rate"
    ∷ "replication_lag" ∷ "cache_hit_ratio" ∷ "storage_usage" ∷ "deadlocks" ∷ []

-- A metric, or which of the four errors is wrapped.
pub data Resolved : Type 0 where
  resolved : String → Resolved
  unknown_semantic_slot slot_not_applicable : Resolved
  metric_not_in_catalog metric_engine_mismatch : Resolved

declared_among : List String → String → Bool
declared_among [] slot = false
declared_among (declaration ∷ declarations) slot =
    let rest = declared_among declarations slot in if str_eq declaration slot then true else rest

unfoldable pub slot_declared : String → Bool
unfolding declared_among
slot_declared slot = declared_among semantic_slots slot

unfoldable pub lookup : List Metric → String → Option Metric
lookup [] id = none
lookup (item ∷ items) id =
    let rest = lookup items id in if str_eq item.id id then some item else rest

abbrev pub or_else : {A B : Type 0} → B → (A → B) → Option A → B
or_else other read none = other
or_else other read (some a) = read a

unfoldable pub level_for : List Metric → String → MetricLevel
unfolding lookup
level_for metrics id = or_else level_instance (λ item. item.level) (lookup metrics id)

unfoldable pub aggregation_for : List Metric → String → MetricAggregation
unfolding lookup
aggregation_for metrics id = or_else aggregation_none (λ item. item.aggregation) (lookup metrics id)

unfoldable pub weight_metric_for : List Metric → String → Option String
unfolding lookup
weight_metric_for metrics id =
    or_else none (λ item. if str_eq item.weight "" then none else some item.weight)
      (lookup metrics id)

unfoldable pub engine_for : List Metric → String → Option String
unfolding lookup
engine_for metrics id = or_else none (λ item. some item.engine) (lookup metrics id)

unfoldable pub slot_for : List Metric → String → String
unfolding lookup
slot_for metrics id = or_else "" (λ item. item.slot) (lookup metrics id)

unfoldable pub producer_for : List Metric → String → Option MetricProducer
producer_for [] id = none
producer_for (item ∷ items) id =
    let rest = producer_for items id in if str_eq item.id id then some item.producer else rest

-- The loop of `ResolveSlot`, from the metric of no engine that was met last.
unfoldable pub bound : List Metric → String → String → String → Resolved
bound [] slot engine agnostic =
    if not (str_eq agnostic "") then resolved agnostic else slot_not_applicable
bound (item ∷ items) slot engine agnostic =
    let rest = bound items slot engine (
      if str_eq item.slot slot
      then if str_eq item.engine engine_agnostic then item.id else agnostic
      else agnostic) in
    if not (str_eq item.slot slot)
    then rest
    else if str_eq item.engine engine
    then resolved item.id
    else rest

unfoldable pub resolve_slot : List Metric → String → String → Resolved
unfolding bound
resolve_slot metrics slot engine =
    if not (slot_declared slot) then unknown_semantic_slot else bound metrics slot engine ""

unfoldable pub resolve_item : List Metric → Option Metric → String → Resolved
unfolding resolve_slot
resolve_item metrics none engine = metric_not_in_catalog
resolve_item metrics (some item) engine =
    if str_eq item.engine engine_agnostic
    then resolved item.id
    else if not (str_eq item.slot "")
    then resolve_slot metrics item.slot engine
    else if str_eq item.engine engine
    then resolved item.id
    else metric_engine_mismatch

unfoldable pub resolve_for_engine : List Metric → String → String → Resolved
unfolding resolve_item
resolve_for_engine metrics id engine = resolve_item metrics (lookup metrics id) engine

abbrev pub is_resolved : Resolved → Bool
is_resolved (resolved id) = true
is_resolved _ = false

unfoldable pub applies_to_engine : List Metric → String → String → Bool
unfolding resolve_for_engine
applies_to_engine metrics id engine = is_resolved (resolve_for_engine metrics id engine)
