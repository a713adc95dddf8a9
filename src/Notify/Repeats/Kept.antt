-- ===== src/Notify/Repeats/Kept.antt =====
-- The number that `EnqueueDueRepeats` of internal/notify/dispatcher.go returns.
use dbs_monitor.Prelude.{
  ℕ, ◌+◌, ◌≡◌, refl, true, String, Option, none, some, List, [], ◌∷◌, ◌++◌, arith, length,
  Bool-cases, Option-cases, inl, inr,
}
use dbs_monitor.Notify.Maintenance.{find_active_maintenance_window}
use dbs_monitor.Notify.Repeats.{
  Candidate, Statement, enqueue_alert_notifications, delete_pending_notification,
  record_maintenance_suppressed, Sweep, Answers, after, is_due, delete_each, discard, is_suppressed,
  failed, enqueue_one, sweep, sweep_all, enqueue_due_repeats,
}

abbrev given : Option (List String) → ℕ
given none = 0
given (some ids) = length ids

-- How many notifications the statements delete.
unfoldable pub deletions : List Statement → ℕ
deletions [] = 0
deletions (delete_pending_notification id ∷ l) = deletions l + 1
deletions (enqueue_alert_notifications c ∷ l) = deletions l
deletions (record_maintenance_suppressed id w t ∷ l) = deletions l

deletions-append : (l m : List Statement) → deletions (l ++ m) ≡ deletions l + deletions m
unfolding deletions
deletions-append [] m = omega arith
deletions-append (delete_pending_notification id ∷ l) m = omega (arith, deletions-append l m)
deletions-append (enqueue_alert_notifications c ∷ l) m = deletions-append l m
deletions-append (record_maintenance_suppressed id w t ∷ l) m = deletions-append l m

module _ (db : Answers) where
  -- How many notifications the statements enqueue.
  unfoldable pub insertions : List Statement → ℕ
  insertions [] = 0
  insertions (delete_pending_notification id ∷ l) = insertions l
  insertions (enqueue_alert_notifications c ∷ l) = given (db.notification_ids c) + insertions l
  insertions (record_maintenance_suppressed id w t ∷ l) = insertions l

  insertions-append : (l m : List Statement) → insertions (l ++ m) ≡ insertions l + insertions m
  unfolding insertions
  insertions-append [] m = omega arith
  insertions-append (delete_pending_notification id ∷ l) m = insertions-append l m
  insertions-append (enqueue_alert_notifications c ∷ l) m = omega (arith, insertions-append l m)
  insertions-append (record_maintenance_suppressed id w t ∷ l) m = insertions-append l m

module _ (db : Answers) (now : ℕ) where
  delete_each-counts :
      (ids : List String)
      → (delete_each db now ids).1 ≡ true
      → (deletions (delete_each db now ids).0 ≡ length ids)
        × (insertions db (delete_each db now ids).0 ≡ 0)
  unfolding delete_each deletions insertions
  delete_each-counts [] h = (refl, refl)
  delete_each-counts (id ∷ ids) h = ground (arith, delete_each-counts ids)

  discard-counts :
      (c : Candidate) (window : Option String) (ids : List String)
      → (discard db now c window ids).1 ≡ true
      → (deletions (discard db now c window ids).0 ≡ length ids)
        × (insertions db (discard db now c window ids).0 ≡ 0)
  unfolding discard deletions insertions
  discard-counts c window ids h =
      let last = record_maintenance_suppressed c.alert_instance_id window now ∷ [] in
      ground (
        arith,
        delete_each-counts ids,
        deletions-append (delete_each db now ids).0 last,
        insertions-append db (delete_each db now ids).0 last,
      )

  -- What is counted, beyond what was, is what is enqueued and not deleted.
  abbrev pub Balanced : ℕ → Sweep → Type 0
  Balanced n s =
      s.is_complete ≡ true → deletions s.statements + s.enqueued ≡ n + insertions db s.statements

  after-Balanced :
      (n k : ℕ) (l : List Statement) (s : Sweep)
      → n + insertions db l ≡ k + deletions l
      → Balanced k s
      → Balanced n (after l s)
  unfolding after
  after-Balanced n k l s h b o =
      omega (arith, h, b o, deletions-append l s.statements, insertions-append db l s.statements)

  after_failed : (l m : List Statement) (n k : ℕ) → Balanced n (after l (after m (failed db now k)))
  unfolding after
  after_failed l m n k o = absurd (ground arith)

  failed-Balanced : (n : ℕ) → Balanced n (failed db now n)
  failed-Balanced n o = absurd (ground arith)

  enqueue_one-Balanced :
      (c : Candidate) (window : Option String) (ids : List String) (n : ℕ) (rest kept : Sweep)
      → db.notification_ids c ≡ some ids
      → Balanced n rest
      → Balanced (n + length ids) kept
      → Balanced n (enqueue_one db now c window ids n rest kept)
  unfolding enqueue_one deletions insertions
  enqueue_one-Balanced c window ids n rest kept given_ids b k =
      let discarded = discard db now c window ids in
      let enqueue = enqueue_alert_notifications c ∷ [] in
      elim (Bool-cases (is_suppressed db now window ids)) [
        | inl suppressed ↦ elim (Bool-cases discarded.1) [
          | inl taken ↦
              rw (suppressed, taken)
                (after-Balanced n (n + length ids) enqueue (after discarded.0 rest)
                  (rw given_ids (omega arith))
                  (after-Balanced (n + length ids) n discarded.0 rest
                    (omega (arith, discard-counts c window ids taken)) b))
          | inr refused ↦ rw (suppressed, refused) (after_failed enqueue discarded.0 n n)
        ]
        | inr sent ↦
            rw sent (after-Balanced n (n + length ids) enqueue kept (rw given_ids (omega arith)) k)
      ]

  sweep-Balanced : (cs : List Candidate) (n : ℕ) → Balanced n (sweep db now cs n)
  unfolding sweep deletions insertions
  sweep-Balanced [] n = λ o. omega arith
  sweep-Balanced (c ∷ cs) n = elim (Bool-cases (is_due now c)) [
    | inr early ↦ rw (early, sweep) (sweep-Balanced cs n)
    | inl due ↦
        elim (Option-cases
          (find_active_maintenance_window (db.maintenance_windows c) c.instance_id now)) [
            | inl unmatched ↦ rw (due, unmatched, sweep) (failed-Balanced n)
            | inr (window, matched) ↦ elim (Option-cases (db.notification_ids c)) [
              | inl refused ↦ rw (due, matched, refused, sweep) (failed-Balanced n)
              | inr (ids, given_ids) ↦
                  rw (due, matched, given_ids, sweep)
                    (enqueue_one-Balanced c window ids n (sweep db now cs n)
                      (sweep db now cs (n + length ids)) given_ids (sweep-Balanced cs n)
                      (sweep-Balanced cs (n + length ids)))
            ]
          ]
  ]

  sweep_all-Balanced : (o : Option (List Candidate)) → Balanced 0 (sweep_all db now o)
  unfolding sweep_all
  sweep_all-Balanced none = failed-Balanced 0
  sweep_all-Balanced (some cs) = sweep-Balanced cs 0

  -- Where the call comes back with no error, the number that it returns and the number of the
  -- notifications that it has deleted make up the number of those that it has enqueued.
  pub enqueue_due_repeats-enqueued :
      (enqueue_due_repeats db now).is_complete ≡ true
      → deletions (enqueue_due_repeats db now).statements + (enqueue_due_repeats db now).enqueued
        ≡ insertions db (enqueue_due_repeats db now).statements
  unfolding enqueue_due_repeats
  enqueue_due_repeats-enqueued o = omega (arith, sweep_all-Balanced db.candidates o)
