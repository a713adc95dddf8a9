-- ===== src/Notify/Maintenance/Choice.antt =====
-- The window that `ActiveMaintenanceWindow` of internal/notify/maintenance.go picks.
use dbs_monitor.Prelude.{
  ℕ, ◌≤◌, ◌≡◌, refl, String, Bool, true, false, Option, none, some, List, [], ◌∷◌, arith,
  if◌then◌else◌, inl, inr, ◌⊎◌, Bool-cases, All, subst,
}
use dbs_monitor.Notify.Maintenance.{
  MaintenanceWindowScope, covers, is_preferred, choose, scan, active_maintenance_window,
}

-- Some window of the list is this one.
abbrev pub Member : MaintenanceWindowScope → List MaintenanceWindowScope → Type 0
Member w [] = ⊥
Member w (x ∷ xs) = (w ≡ x) ⊎ Member w xs

module _ (instance_id : String) (at_time : ℕ) where
  -- Where one window covers the instance, it does not end before `w`.
  abbrev pub NotSooner : MaintenanceWindowScope → MaintenanceWindowScope → Type 0
  NotSooner w x = covers instance_id at_time x ≡ true → w.ends_at ≤ x.ends_at

  abbrev Best :
      List MaintenanceWindowScope
      → Option MaintenanceWindowScope
      → Option MaintenanceWindowScope
      → Type 0
  Best l none none = All (λ x. covers instance_id at_time x ≡ false) l
  Best l (some a) none = ⊥
  Best l none (some w) = All (NotSooner w) l × (Member w l × (covers instance_id at_time w ≡ true))
  Best l (some a) (some w) =
      All (NotSooner w) l
      × (w.ends_at ≤ a.ends_at)
      × ((w ≡ a) ⊎ (Member w l × (covers instance_id at_time w ≡ true)))

  -- One more window is looked at, with `covered` the answer of the first test.
  Best-cons :
      (x : MaintenanceWindowScope) (l : List MaintenanceWindowScope)
      (a r : Option MaintenanceWindowScope) (covered : Bool)
      → covers instance_id at_time x ≡ covered
      → Best l (if covered then choose x a else a) r
      → Best (x ∷ l) a r
  unfolding choose is_preferred
  Best-cons x l none none true e h = absurd h
  Best-cons x l none none false e h = (e, h)
  Best-cons x l (some a) none true e h = elim (Bool-cases (is_preferred x a)) [
    | inl p ↦ absurd (rw (p, choose) at h)
    | inr p ↦ absurd (rw (p, choose) at h)
  ]
  Best-cons x l (some a) none false e h = h
  Best-cons x l none (some w) true e h = (
    (λ _. h.1, h.0),
    (elim h.2 [ inl p ↦ inl p | inr q ↦ inr q.0 ], elim h.2 [ inl p ↦ rw p e | inr q ↦ q.1 ]),
  )
  Best-cons x l none (some w) false e h = ((λ k. ground arith, h.0), (inr h.1.0, h.1.1))
  Best-cons x l (some a) (some w) true e h = elim (Bool-cases (is_preferred x a)) [
    | inl p ↦
        let (all, le, from) = rw (p, choose) at h in
        (
          (λ _. le, all),
          ground arith,
          elim from [ inl q ↦ inr (inl q, rw q e) | inr q ↦ inr (inr q.0, q.1) ],
        )
    | inr p ↦
        let (all, le, from) = rw (p, choose) at h in
        ((λ _. ground arith, all), le, elim from [ inl q ↦ inl q | inr q ↦ inr (inr q.0, q.1) ])
  ]
  Best-cons x l (some a) (some w) false e h =
      ((λ k. ground arith, h.0), h.1, elim h.2 [ inl q ↦ inl q | inr q ↦ inr (inr q.0, q.1) ])

  Best-nil : (a : Option MaintenanceWindowScope) → Best [] a a
  Best-nil none = tt
  Best-nil (some a) = (tt, omega arith, inl refl)

  scan-Best :
      (l : List MaintenanceWindowScope) (a : Option MaintenanceWindowScope)
      → Best l a (scan instance_id at_time l a)
  unfolding scan
  scan-Best [] a = Best-nil a
  scan-Best (x ∷ l) a =
      Best-cons x l a _ (covers instance_id at_time x) refl
        (scan-Best l (if covers instance_id at_time x then choose x a else a))

  -- The active maintenance window is one of the list that covers the instance, and no window that
  -- covers it ends earlier.
  pub active_maintenance_window-covers :
      (windows : List MaintenanceWindowScope) {w : MaintenanceWindowScope}
      → active_maintenance_window instance_id at_time windows ≡ some w
      → Member w windows × (covers instance_id at_time w ≡ true) × All (NotSooner w) windows
  unfolding active_maintenance_window
  active_maintenance_window-covers windows {w} e =
      let h = subst (Best windows none) e (scan-Best windows none) in (h.1.0, h.1.1, h.0)

  -- No maintenance window is active only if none of the list covers the instance.
  pub active_maintenance_window-none :
      (windows : List MaintenanceWindowScope)
      → active_maintenance_window instance_id at_time windows ≡ none
      → All (λ x. covers instance_id at_time x ≡ false) windows
  unfolding active_maintenance_window
  active_maintenance_window-none windows e = subst (Best windows none) e (scan-Best windows none)
