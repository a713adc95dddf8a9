-- ===== src/Evaluator/Views.antt =====
-- What can be looked for among the statements of internal/evaluator/service.go: notifications, the
-- changes of an alert that call for one, and checkpoints.
use dbs_monitor.Prelude.{refl, String, Option, none, some, List, [], ◌∷◌, ◌++◌}
use dbs_monitor.Notify.Message.{EventType, firing, recovery}
use dbs_monitor.Evaluator.Run.{
  Effect, Checkpoint, mark_alert_rule_evaluated, save_alert_snapshot, recover_alert_snapshot,
  enqueue_alert_notifications, delete_pending_notification,
}
use dbs_monitor.Evaluator.Observed.{View}

abbrev pub once : {A : Type 0} → Option A → EventType → List EventType
once none event_type = []
once (some a) event_type = event_type ∷ []

-- The event types of the notifications that a statement enqueues.
unfoldable pub enqueued : {F : Type 0} → Effect F → List EventType
enqueued (enqueue_alert_notifications e) = e.event_type ∷ []
enqueued _ = []

-- What the columns of a statement say has happened: the alert began to fire, or recovered.
unfoldable pub announced : {F : Type 0} → Effect F → List EventType
announced (save_alert_snapshot c) = once c.first_triggered_at firing ++ once c.recovered_at recovery
announced (recover_alert_snapshot c) = once c.updated_at recovery
announced _ = []

-- The notifications that a statement deletes.
unfoldable pub deleted : {F : Type 0} → Effect F → List String
deleted (delete_pending_notification id) = id ∷ []
deleted _ = []

-- The rules that a statement marks as evaluated.
unfoldable pub marked : {F : Type 0} → Effect F → List Checkpoint
marked (mark_alert_rule_evaluated c) = c ∷ []
marked _ = []

abbrev pub nothing : {A B : Type 0} → A → List B
nothing a = []

module _ {F : Type 0} where
  unfoldable pub enqueued_view : View (enqueued {F = F})
  unfolding enqueued
  enqueued_view = record {
    noticed = λ e. e ∷ [];
    dropped = nothing;
    at_enqueue = λ e. refl;
    at_delete = λ id. refl;
    at_reset = λ r. refl;
    at_event = λ e. refl;
    at_snapshot = λ id t s. refl;
    at_performance = λ id e t. refl;
    at_suppressed = λ id w t. refl;
  }

  unfoldable pub announced_view : View (announced {F = F})
  unfolding announced
  announced_view = record {
    noticed = nothing;
    dropped = nothing;
    at_enqueue = λ e. refl;
    at_delete = λ id. refl;
    at_reset = λ r. refl;
    at_event = λ e. refl;
    at_snapshot = λ id t s. refl;
    at_performance = λ id e t. refl;
    at_suppressed = λ id w t. refl;
  }

  unfoldable pub deleted_view : View (deleted {F = F})
  unfolding deleted
  deleted_view = record {
    noticed = nothing;
    dropped = λ id. id ∷ [];
    at_enqueue = λ e. refl;
    at_delete = λ id. refl;
    at_reset = λ r. refl;
    at_event = λ e. refl;
    at_snapshot = λ id t s. refl;
    at_performance = λ id e t. refl;
    at_suppressed = λ id w t. refl;
  }

  unfoldable pub marked_view : View (marked {F = F})
  unfolding marked
  marked_view = record {
    noticed = nothing;
    dropped = nothing;
    at_enqueue = λ e. refl;
    at_delete = λ id. refl;
    at_reset = λ r. refl;
    at_event = λ e. refl;
    at_snapshot = λ id t s. refl;
    at_performance = λ id e t. refl;
    at_suppressed = λ id w t. refl;
  }
