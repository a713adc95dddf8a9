-- ===== src/Notify/Delivery/Tests.antt =====
-- One round of the delivery queue of internal/notify/dispatcher.go over two rows.
use dbs_monitor.Prelude.{
  String, Bool, str_eq, refl, true, false, none, some, List, [], ◌∷◌, All, arith, minute,
}
use dbs_monitor.Notify.Message.{firing, recovery}
use dbs_monitor.Notify.Delivery.{
  smtp, pending, NotificationDelivery, claimed_before, next_claim, Answers, no_alert, dispatch_one,
}
use dbs_monitor.Notify.Delivery.Outcomes.{Dispatches, dispatch_one-Outcome}
use dbs_monitor.Notify.Delivery.Attempts.{IsBounded, dispatch_one-IsBounded}
use dbs_monitor.Notify.Delivery.Claims.{Claimable, Among, NotBefore, next_claim_lem}

abbrev early : NotificationDelivery
early = record {
  id = "d1";
  event_type = firing;
  channel = smtp;
  status = pending;
  attempt_count = 2;
  next_attempt_at = 3;
  locked_until = none;
  created_at = 1;
  completed_at = none;
}

abbrev late : NotificationDelivery
late = record early { id = "d2"; event_type = recovery; attempt_count = 0; next_attempt_at = 8 }

abbrev rows : List NotificationDelivery
rows = late ∷ early ∷ []

-- No channel takes anything.
abbrev refusing : Answers
refusing = record {
  alert = λ d. no_alert;
  windows = λ id. some [];
  payload_decodes = λ d. true;
  channels = λ key. none;
  held_elsewhere = λ id. false;
  claim_succeeds = true;
  statement_succeeds = true;
}

dispatch_one-Outcome_example :
    Dispatches refusing minute 10 rows (dispatch_one refusing minute 10 rows)
dispatch_one-Outcome_example = dispatch_one-Outcome refusing minute 10 rows

rows-IsBounded : All IsBounded rows
rows-IsBounded = (
  record { capped = omega arith; pending_below = λ h. omega arith; failed_spent = λ h. cc },
  (record { capped = omega arith; pending_below = λ h. omega arith; failed_spent = λ h. cc }, tt),
)

dispatch_one-IsBounded_example : All IsBounded (dispatch_one refusing minute 10 rows).rows
dispatch_one-IsBounded_example = dispatch_one-IsBounded refusing minute 10 rows rows-IsBounded

-- The row that another transaction holds is passed over.
abbrev held : String → Bool
held id = str_eq id "d0"

abbrev taken : NotificationDelivery
taken = record early { id = "d0"; next_attempt_at = 1 }

-- A row that a claim has locked until 40.
abbrev claimed : NotificationDelivery
claimed = record early { id = "d3"; next_attempt_at = 1; locked_until = some 40 }

next_claim_lem_example :
    Claimable held 10 early
    × Among early (taken ∷ claimed ∷ rows)
    × All (λ x. Claimable held 10 x → NotBefore early x) (taken ∷ claimed ∷ rows)
unfolding next_claim claimed_before
next_claim_lem_example = next_claim_lem held 10 (taken ∷ claimed ∷ rows) refl
