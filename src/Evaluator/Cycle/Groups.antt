-- ===== src/Evaluator/Cycle/Groups.antt =====
-- The groups that a cycle of internal/evaluator/service.go evaluates.
use dbs_monitor.Prelude.{
  ℕ, zero, suc, ◌<◌, ◌≤◌, ◌≡◌, refl, sym, subst, ap, ◌∙◌, String, Bool, Option, some, List, [], ◌∷◌,
  ◌++◌, if◌then◌else◌, str_eq, eq_iff, length, arith, Bool-cases, inl, inr, Float64,
}
use dbs_monitor.Metric.Catalog.{Metric}
use dbs_monitor.Evaluator.Run.{Run, ok, err}
use dbs_monitor.Evaluator.Reading.{Conversions}
use dbs_monitor.Evaluator.Columns.{ScheduledTarget, Database}
use dbs_monitor.Evaluator.Cycle.{span_instance, and_then, run_groups, evaluate_instance, run_once}

-- A target joins the group that follows it where that is of its instance, and begins one elsewhere.
unfoldable pub join : ScheduledTarget → List (List ScheduledTarget) → List (List ScheduledTarget)
join t [] = (t ∷ []) ∷ []
join t ([] ∷ gs) = (t ∷ []) ∷ gs
join t ((u ∷ g) ∷ gs) =
    if str_eq u.instance_id t.instance_id then (t ∷ u ∷ g) ∷ gs else (t ∷ []) ∷ (u ∷ g) ∷ gs

unfoldable pub split : List ScheduledTarget → List (List ScheduledTarget)
unfolding join
split [] = []
split (t ∷ ts) = join t (split ts)

split-span_instance :
    (t : ScheduledTarget) (ts : List ScheduledTarget)
    → split (t ∷ ts)
      ≡ (t ∷ (span_instance t.instance_id ts).0) ∷ split (span_instance t.instance_id ts).1
unfolding split join span_instance
split-span_instance t [] = refl
split-span_instance t (u ∷ ts) = elim (Bool-cases (str_eq u.instance_id t.instance_id)) [
  | inl same ↦
      rw (split-span_instance u ts, same)
        (ap (λ i. (t ∷ u ∷ (span_instance i ts).0) ∷ split (span_instance i ts).1)
          ((eq_iff u.instance_id t.instance_id).0 same))
  | inr other ↦
      rw (split-span_instance u ts, other)
        (ap (λ gs. (t ∷ []) ∷ gs) (sym (split-span_instance u ts)))
]

span_instance-length :
    (instance_id : String) (ts : List ScheduledTarget)
    → length (span_instance instance_id ts).1 ≤ length ts
unfolding span_instance
span_instance-length instance_id [] = omega arith
span_instance-length instance_id (u ∷ ts) = ground (arith, span_instance-length instance_id ts)

module _ {F : Type 0} (evaluate : List ScheduledTarget → Run F Unit) where
  one_after : Run F Unit → Run F Unit → Run F Unit
  one_after (effects, ok u) (later, last) = (effects ++ later, last)
  one_after (effects, err e) rest = (effects, err e)

  -- The groups in order, up to the first that fails.
  unfoldable pub run_all : List (List ScheduledTarget) → Run F Unit
  unfolding one_after
  run_all [] = ([], ok tt)
  run_all (g ∷ gs) = one_after (evaluate g) (run_all gs)

  and_then-one_after :
      (m rest : Run F Unit) → and_then evaluate m (some rest) ≡ some (one_after m rest)
  unfolding and_then one_after
  and_then-one_after (effects, ok u) (later, last) = refl
  and_then-one_after (effects, err e) rest = refl

  run_groups-split :
      (fuel : ℕ) (ts : List ScheduledTarget)
      → length ts < fuel
      → run_groups evaluate fuel ts ≡ some (run_all (split ts))
  unfolding run_groups run_all split
  run_groups-split zero ts h = absurd (omega arith)
  run_groups-split (suc fuel) [] h = refl
  run_groups-split (suc fuel) (t ∷ ts) h =
      let (group, others) = span_instance t.instance_id ts in
      let rest =
        run_groups-split fuel others (omega (arith, span_instance-length t.instance_id ts)) in
      rw rest (and_then-one_after (evaluate (t ∷ group)) (run_all (split others)))
      ∙ ap (λ gs. some (run_all gs)) (sym (split-span_instance t ts))

unfoldable pub concat : List (List ScheduledTarget) → List ScheduledTarget
concat [] = []
concat (g ∷ gs) = g ++ concat gs

-- All the targets are of the instance.
abbrev pub AllOf : String → List ScheduledTarget → Type 0
AllOf instance_id [] = Unit
AllOf instance_id (t ∷ ts) = (t.instance_id ≡ instance_id) × AllOf instance_id ts

-- No group is empty, and each is of one instance.
abbrev pub Alike : List (List ScheduledTarget) → Type 0
Alike [] = Unit
Alike ([] ∷ gs) = ⊥
Alike ((t ∷ g) ∷ gs) = AllOf t.instance_id g × Alike gs

join-Alike :
    (t : ScheduledTarget) (gs : List (List ScheduledTarget))
    → Alike gs
    → Alike (join t gs) × (concat (join t gs) ≡ t ∷ concat gs)
unfolding join concat
join-Alike t [] h = ((tt, tt), refl)
join-Alike t ([] ∷ gs) h = absurd h
join-Alike t ((u ∷ g) ∷ gs) (alike, rest) = elim (Bool-cases (str_eq u.instance_id t.instance_id)) [
  | inl same ↦
      let eq = (eq_iff u.instance_id t.instance_id).0 same in
      rw same (((eq, subst (λ i. AllOf i g) eq alike), rest), refl)
  | inr other ↦ rw other ((tt, (alike, rest)), refl)
]

-- The groups put together are the targets, in their order; no group is empty, and each is of one
-- instance.
concat-split :
    (targets : List ScheduledTarget) → (concat (split targets) ≡ targets) × Alike (split targets)
unfolding split concat
concat-split [] = (refl, tt)
concat-split (t ∷ ts) =
    let (eq, alike) = concat-split ts in
    let (joined, more) = join-Alike t (split ts) alike in (more ∙ ap (λ l. t ∷ l) eq, joined)

module _ (f : Float64) (conversions : Conversions f.F) (metrics : List Metric) where
  -- A cycle comes back, having evaluated the targets in groups, in order, up to the first group that
  -- fails. The groups put together are the targets, in their order; no group is empty, and each is of
  -- one instance.
  pub run_once-split :
      (paused : List ScheduledTarget → Option Bool) (committed : List ScheduledTarget → Bool)
      (answers : ScheduledTarget → Database f) (targets : List ScheduledTarget) (now : ℕ)
      → (run_once f conversions metrics paused committed answers (some targets) now
          ≡ some (
              run_all
                (λ group.
                  evaluate_instance f conversions metrics
                    (paused group)
                    (committed group)
                    answers
                    now
                    group)
                (split targets)))
        × (concat (split targets) ≡ targets)
        × Alike (split targets)
  unfolding run_once
  run_once-split paused committed answers targets now =
      let (joined, alike) = concat-split targets in
      (
        run_groups-split
            (λ group.
              evaluate_instance f conversions metrics (paused group) (committed group) answers now
                group)
            (suc (length targets)) targets (omega arith),
        joined,
        alike,
      )
