-- ===== src/Evaluator/Cycle/Tests.antt =====
-- A cycle of internal/evaluator/service.go over targets of two instances.
use dbs_monitor.Prelude.{
  ℕ, ◌-◌, ◌≡◌, refl, String, Bool, true, Option, none, some, List, [], ◌∷◌, whole,
}
use dbs_monitor.Evaluator.Reading.{Conversions}
use dbs_monitor.Evaluator.Columns.{ScheduledTarget, Database}
use dbs_monitor.Evaluator.Cycle.{evaluate_instance, run_once}
use dbs_monitor.Evaluator.Cycle.Groups.{run_all, split, join, concat, Alike, run_once-split}

abbrev target : String → String → ScheduledTarget
target rule_id instance_id = record {
  rule_id = rule_id;
  instance_id = instance_id;
  metric_dimension_key = "";
  rule_name = "";
  instance_name = "";
}

abbrev targets : List ScheduledTarget
targets = target "a" "one" ∷ target "b" "one" ∷ target "a" "two" ∷ []

two_groups :
    split targets ≡ (target "a" "one" ∷ target "b" "one" ∷ []) ∷ (target "a" "two" ∷ []) ∷ []
unfolding split join
two_groups = refl

abbrev conversions : Conversions (Option ℕ)
conversions = record {
  unix_time = λ x. 0;
  seconds_since = λ now t. some (now - t);
  sprint = λ x. "";
}

-- A database that knows no rule.
abbrev unknown : ScheduledTarget → Database whole
unknown scheduled = record {
  target = none;
  readings = record { facts = none; samples = none; weighted_samples = λ weight. none };
  maintenance_windows = none;
  executed = λ effect. true;
  alert_instance_id = none;
  trigger_snapshot_id = none;
  notification_ids = λ event_type. none;
}

abbrev paused : List ScheduledTarget → Option Bool
paused group = some true

abbrev committed : List ScheduledTarget → Bool
committed group = true

run_once-split_example :
    (run_once whole conversions [] paused committed unknown (some targets) 5
      ≡ some (
          run_all
            (λ group.
              evaluate_instance whole conversions []
                (paused group)
                (committed group)
                unknown
                5
                group)
            (split targets)))
    × (concat (split targets) ≡ targets)
    × Alike (split targets)
run_once-split_example = run_once-split whole conversions [] paused committed unknown targets 5
