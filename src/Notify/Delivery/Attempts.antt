-- ===== src/Notify/Delivery/Attempts.antt =====
-- How many attempts internal/notify/dispatcher.go records of a delivery.
use dbs_monitor.Prelude.{
  ℕ, ◌≤◌, ◌<◌, ◌≡◌, ◌&&◌, Bool, some, List, [], ◌∷◌, arith, str_eq, Bool-cases, Option-cases, inl,
  inr, All, String,
}
use dbs_monitor.Notify.Delivery.Outcomes.{
  Recorded, Outcome, unread, unmatched, was_suppressed, was_sent, was_put_back, was_given_up,
  Dispatches, refused, idle, took, dispatch_one-Outcome,
}
use dbs_monitor.Notify.Message.{max_attempts}
use dbs_monitor.Notify.Delivery.{
  pending, failed, is_pending, NotificationDelivery, next_claim, update_pending, delete_pending,
  Answers, Dispatched, dispatch_one,
}

-- Of a pending delivery fewer attempts are recorded than there may be, of one that failed all.
pub record IsBounded (d : NotificationDelivery) : Type 0 where
  pub capped : d.attempt_count ≤ max_attempts
  pub pending_below : d.status ≡ pending → d.attempt_count < max_attempts
  pub failed_spent : d.status ≡ failed → d.attempt_count ≡ max_attempts

next_claim-IsBounded :
    (held : String → Bool) (now : ℕ) (rows : List NotificationDelivery) {d : NotificationDelivery}
    → All IsBounded rows
    → next_claim held now rows ≡ some d
    → IsBounded d × (d.status ≡ pending)
unfolding next_claim
next_claim-IsBounded held now [] b e = cc
next_claim-IsBounded held now (r ∷ rows) b e = elim (Option-cases (next_claim held now rows)) [
  | inl empty ↦ ground (arith, b.0)
  | inr (x, found) ↦ ground (arith, b.0, next_claim-IsBounded held now rows b.1 found)
]

update-IsBounded :
    (key : String) (change : NotificationDelivery → NotificationDelivery)
    (rows : List NotificationDelivery)
    → ((r : NotificationDelivery) → IsBounded r → r.status ≡ pending → IsBounded (change r))
    → All IsBounded rows
    → All IsBounded (update_pending key change rows)
unfolding update_pending
update-IsBounded key change [] ok b = tt
update-IsBounded key change (r ∷ rows) ok b =
    elim (Bool-cases (str_eq r.id key && is_pending r.status)) [
      | inl hit ↦
          rw (hit, update_pending)
            (ok r b.0 (ground arith), update-IsBounded key change rows ok b.1)
      | inr miss ↦ rw (miss, update_pending) (b.0, update-IsBounded key change rows ok b.1)
    ]

delete-IsBounded :
    (key : String) (rows : List NotificationDelivery)
    → All IsBounded rows
    → All IsBounded (delete_pending key rows)
unfolding delete_pending
delete-IsBounded key [] b = tt
delete-IsBounded key (r ∷ rows) b = ground (arith, delete-IsBounded key rows b.1)

Recorded-IsBounded :
    (answers : Answers) (rows changed : List NotificationDelivery) (r : Dispatched)
    → All IsBounded rows
    → All IsBounded changed
    → Recorded answers rows changed r
    → All IsBounded r.rows
Recorded-IsBounded answers rows changed r b c (inl (_, e, _)) = rw e c
Recorded-IsBounded answers rows changed r b c (inr (_, e, _)) = rw e b

Outcome-IsBounded :
    (answers : Answers) (backoff_cap now : ℕ) (d : NotificationDelivery)
    (rows : List NotificationDelivery) (r : Dispatched)
    → d.attempt_count < max_attempts
    → All IsBounded rows
    → Outcome answers backoff_cap now d rows r
    → All IsBounded r.rows
Outcome-IsBounded answers cap_ns now d rows r few b (unread _ e _) = rw e b
Outcome-IsBounded answers cap_ns now d rows r few b (unmatched _ _ _ e _) = rw e b
Outcome-IsBounded answers cap_ns now d rows r few b (was_suppressed _ _ _ _ e) =
    Recorded-IsBounded answers rows _ r b (delete-IsBounded d.id rows b) e
Outcome-IsBounded answers cap_ns now d rows r few b (was_sent _ _ e) =
    Recorded-IsBounded answers rows _ r b
      (update-IsBounded d.id _ rows
        (λ x y z. record { capped = ground arith; pending_below = λ h. cc; failed_spent = λ h. cc })
        b)
      e
Outcome-IsBounded answers cap_ns now d rows r few b (was_put_back _ _ left e) =
    Recorded-IsBounded answers rows _ r b
      (update-IsBounded d.id _ rows
        (λ x y z. record {
          capped = ground arith;
          pending_below = λ h. ground arith;
          failed_spent = λ h. cc;
        })
        b)
      e
Outcome-IsBounded answers cap_ns now d rows r few b (was_given_up _ _ spent e) =
    Recorded-IsBounded answers rows _ r b
      (update-IsBounded d.id _ rows
        (λ x y z. record {
          capped = ground arith;
          pending_below = λ h. cc;
          failed_spent = λ h. ground arith;
        })
        b)
      e

Dispatches-IsBounded :
    (answers : Answers) (backoff_cap now : ℕ) (rows : List NotificationDelivery) (r : Dispatched)
    → All IsBounded rows
    → Dispatches answers backoff_cap now rows r
    → All IsBounded r.rows
Dispatches-IsBounded answers cap_ns now rows r b (refused _ e) = rw e b
Dispatches-IsBounded answers cap_ns now rows r b (idle _ _ e) = rw e b
Dispatches-IsBounded answers cap_ns now rows r b (took _ d e outcome) =
    let (bd, p) = next_claim-IsBounded answers.held_elsewhere now rows b e in
    Outcome-IsBounded answers cap_ns now d _ r (bd.pending_below p)
      (update-IsBounded d.id _ rows
        (λ x y z. record {
          capped = y.capped;
          pending_below = y.pending_below;
          failed_spent = y.failed_spent;
        })
        b)
      outcome

-- Whatever a dispatch meets, the attempts that the rows record stay within their bounds: of no
-- delivery are more than `max_attempts` recorded, of one that is pending fewer, and of one that failed
-- exactly as many. A send whose record fails is not among them.
pub dispatch_one-IsBounded :
    (answers : Answers) (backoff_cap now : ℕ) (rows : List NotificationDelivery)
    → All IsBounded rows
    → All IsBounded (dispatch_one answers backoff_cap now rows).rows
dispatch_one-IsBounded answers backoff_cap now rows b =
    Dispatches-IsBounded answers backoff_cap now rows _ b
      (dispatch_one-Outcome answers backoff_cap now rows)
