-- ===== src/Alerting/Window/Bounds.antt =====
-- What the reduced value of a window says of its samples.
use dbs_monitor.Prelude.{
  ℕ, ◌+◌, ◌≡◌, refl, ◌↔◌, ◌⊎◌, inl, inr, String, Bool, true, false, ◌||◌, Option, none, some, List,
  [], ◌∷◌, arith, if◌then◌else◌, str_eq, Bool-cases, Option-cases, length, Float64,
}
use dbs_monitor.Alerting.Window.{
  Point, Reduction, in_window, reduce, visit, scan, empty_reduction, aggregate_window,
}

module _ (f : Float64) where
  open f use {F, of_ℕ, add, div, lt, le, eq, is_nan}

  -- The points that lie in the window.
  unfoldable pub kept : ℕ → ℕ → List (Point f) → List (Point f)
  kept now window [] = []
  kept now window (p ∷ ps) =
      let rest = kept now window ps in if in_window f now window p then p ∷ rest else rest

  scan-kept :
      (a : String) (now window : ℕ) (ps : List (Point f)) (s : Reduction f)
      → scan f a now window (kept now window ps) s ≡ scan f a now window ps s
  unfolding scan kept visit
  scan-kept a now window [] s = refl
  scan-kept a now window (p ∷ ps) s = elim (Option-cases (visit f a now window p s)) [
    | inl stops ↦ ground (arith, scan-kept a now window ps s)
    | inr (s', goes) ↦ ground (arith, scan-kept a now window ps s, scan-kept a now window ps s')
  ]

  -- The value depends on the points of the window alone: dropping the others first gives the same.
  pub aggregate_window-kept :
      (ps : List (Point f)) (now window : ℕ) (a : String)
      → aggregate_window f (kept now window ps) now window a ≡ aggregate_window f ps now window a
  unfolding aggregate_window
  aggregate_window-kept ps now window a = rw (scan-kept a now window ps (empty_reduction f))

  -- The aggregations that the switch knows.
  abbrev pub is_aggregation : String → Bool
  is_aggregation a =
      str_eq a "latest"
      || str_eq a "avg"
      || str_eq a "sum"
      || str_eq a "max"
      || str_eq a "min"
      || str_eq a "count"

  reduce_known :
      (a : String) (p : Point f) (s : Reduction f)
      → is_aggregation a ≡ true
      → (s' : Reduction f) × (reduce f a p s ≡ some s') × (s'.sample_count ≡ s.sample_count)
  unfolding reduce
  reduce_known a p s h = elim (Option-cases (reduce f a p s)) [
    | inl e ↦ ground arith
    | inr (s', e) ↦ (s', e, ground arith)
  ]

  reduce_unknown :
      (a : String) (p : Point f) (s : Reduction f)
      → is_aggregation a ≡ false
      → reduce f a p s ≡ none
  unfolding reduce
  reduce_unknown a p s h = ground arith

  scan_known :
      (a : String) (now window : ℕ) (ps : List (Point f)) (s : Reduction f)
      → is_aggregation a ≡ true
      → (s' : Reduction f) × (scan f a now window ps s ≡ some s')
        × (s'.sample_count ≡ s.sample_count + length (kept now window ps))
  unfolding scan visit kept
  scan_known a now window [] s h = (s, refl, omega arith)
  scan_known a now window (p ∷ ps) s h = elim (Bool-cases (in_window f now window p)) [
    | inl inside ↦
        let (s₁, e, c) = reduce_known a p (record s { sample_count = s.sample_count + 1 }) h in
        let (s', e', c') = scan_known a now window ps s₁ h in (s', ground arith, ground arith)
    | inr outside ↦
        let (s', e', c') = scan_known a now window ps s h in (s', ground arith, ground arith)
  ]

  scan_unknown :
      (a : String) (now window : ℕ) (ps : List (Point f)) (s : Reduction f)
      → is_aggregation a ≡ false
      → (scan f a now window ps s ≡ none) ⊎ (scan f a now window ps s ≡ some s)
  unfolding scan visit
  scan_unknown a now window [] s h = inr refl
  scan_unknown a now window (p ∷ ps) s h = ground (
    arith,
    reduce_unknown a p (record s { sample_count = s.sample_count + 1 }) h,
    scan_unknown a now window ps s h,
  )

  -- There is no value exactly when the aggregation is unknown or the window holds no sample.
  pub aggregate_window-none_iff :
      (ps : List (Point f)) (now window : ℕ) (a : String)
      → (aggregate_window f ps now window a ≡ none)
        ↔ ((is_aggregation a ≡ false) ⊎ (kept now window ps ≡ []))
  unfolding aggregate_window
  aggregate_window-none_iff ps now window a = elim (Bool-cases (is_aggregation a)) [
    | inl known ↦
        let (s', e, c) = scan_known a now window ps (empty_reduction f) known in
        (λ h. inr (ground arith), λ h. ground arith)
    | inr unknown ↦ (
      λ h. inl unknown,
      λ h. ground (arith, scan_unknown a now window ps (empty_reduction f) unknown),
    )
  ]

  -- The loop over points that all lie in the window.
  unfoldable pub reduce_all : String → List (Point f) → Reduction f → Option (Reduction f)
  reduce_all a [] s = some s
  reduce_all a (p ∷ ps) s = elim (reduce f a p (record s { sample_count = s.sample_count + 1 })) [
    | none ↦ none
    | some s' ↦ reduce_all a ps s'
  ]

  pub scan-eq-reduce_all :
      (a : String) (now window : ℕ) (ps : List (Point f)) (s : Reduction f)
      → scan f a now window ps s ≡ reduce_all a (kept now window ps) s
  unfolding scan visit kept reduce_all
  scan-eq-reduce_all a now window [] s = refl
  scan-eq-reduce_all a now window (p ∷ ps) s = elim (Option-cases (visit f a now window p s)) [
    | inl stops ↦ ground arith
    | inr (s', goes) ↦
        ground (arith, scan-eq-reduce_all a now window ps s, scan-eq-reduce_all a now window ps s')
  ]
