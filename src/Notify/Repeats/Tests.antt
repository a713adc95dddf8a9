-- ===== src/Notify/Repeats/Tests.antt =====
-- The repeats of internal/notify/dispatcher.go for one alert that is due and one that is not.
use dbs_monitor.Prelude.{◌+◌, ◌≡◌, refl, true, some, [], ◌∷◌}
use dbs_monitor.Notify.Repeats.{
  Candidate, enqueue_alert_notifications, Answers, enqueue_due_repeats,
}
use dbs_monitor.Notify.Message.{should_deliver}
use dbs_monitor.Notify.Repeat.{notification_due}
use dbs_monitor.Notify.Maintenance.{find_active_maintenance_window}
use dbs_monitor.Notify.Repeats.Kept.{deletions, insertions, enqueue_due_repeats-enqueued}

abbrev due : Candidate
due = record {
  alert_instance_id = "a1";
  instance_id = "i1";
  payload = "{}";
  last_notification_at = 0;
  repeat_interval = 0;
  disposition = "UNACKNOWLEDGED";
}

abbrev early : Candidate
early = record due { alert_instance_id = "a2"; repeat_interval = 600 }

-- No maintenance; each alert goes to two channels.
abbrev answers : Answers
answers = record {
  candidates = some (due ∷ early ∷ []);
  maintenance_windows = λ c. some [];
  notification_ids = λ c. some ("mail" ∷ "hook" ∷ []);
  executed = λ s. true;
}

one_enqueued : (enqueue_due_repeats answers 10).statements ≡ enqueue_alert_notifications due ∷ []
unfolding enqueue_due_repeats notification_due find_active_maintenance_window should_deliver
one_enqueued = refl

enqueue_due_repeats-enqueued_example :
    deletions (enqueue_due_repeats answers 10).statements
      + (enqueue_due_repeats answers 10).enqueued
    ≡ insertions answers (enqueue_due_repeats answers 10).statements
unfolding enqueue_due_repeats notification_due find_active_maintenance_window should_deliver
enqueue_due_repeats-enqueued_example = enqueue_due_repeats-enqueued answers 10 refl
