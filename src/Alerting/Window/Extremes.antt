-- ===== src/Alerting/Window/Extremes.antt =====
-- The aggregations `max` and `latest`: an extreme of the window, and one that is reached.
use dbs_monitor.Prelude.{
  ℕ, ◌+◌, ◌≤◌, ◌<◌, ◌≡◌, refl, ◌⊎◌, inl, inr, true, false, Option, none, some, List, [], ◌∷◌, arith,
  Option-cases, All, Float64, Float64Laws,
}
use dbs_monitor.Alerting.Window.{
  Point, Reduction, reduce, finish, empty_reduction, aggregate_window,
}
use dbs_monitor.Alerting.Window.Bounds.{kept, reduce_all, scan-eq-reduce_all}

module _ (f : Float64) (laws : Float64Laws f) where
  open f use {F, lt, le, is_nan}

  abbrev pub Numeric : List (Point f) → Type 0
  Numeric = All λ p. is_nan p.value ≡ false

  -- The running value, once there is one.
  record Sound (s : Reduction f) : Type 0 where
    number : 0 < s.sample_count → is_nan s.value ≡ false

  max_step :
      (p : Point f) (s s' : Reduction f)
      → is_nan p.value ≡ false
      → Sound s
      → reduce f "max" p (record s { sample_count = s.sample_count + 1 }) ≡ some s'
      → Sound s'
        × (s'.sample_count ≡ s.sample_count + 1)
        × (le p.value s'.value ≡ true)
        × (0 < s.sample_count → le s.value s'.value ≡ true)
        × ((s'.value ≡ p.value) ⊎ ((0 < s.sample_count) × (s'.value ≡ s.value)))
  unfolding reduce
  max_step p s s' h k e = (
    record { number = λ n. ground (arith, h, k.number) },
    ground arith,
    ground (
      arith,
      laws.le_refl p.value h,
      laws.le_not_lt p.value s.value h,
      laws.lt_le s.value p.value,
    ),
    ground (arith, laws.le_refl s.value, laws.lt_le s.value p.value),
    ground arith,
  )

  -- `v` is the value of one of the points.
  abbrev pub Reached : F → List (Point f) → Type 0
  Reached v [] = ⊥
  Reached v (p ∷ ps) = (v ≡ p.value) ⊎ Reached v ps

  -- `v` is at least the value of each of the points.
  abbrev pub AtLeast : F → List (Point f) → Type 0
  AtLeast v = All λ p. le p.value v ≡ true

  AtLeast-mono : (v w : F) (ps : List (Point f)) → le v w ≡ true → AtLeast v ps → AtLeast w ps
  AtLeast-mono v w [] h b = tt
  AtLeast-mono v w (p ∷ ps) h b = (laws.le_trans p.value v w b.0 h, AtLeast-mono v w ps h b.1)

  -- What a stretch of the loop makes of the value: `s` before it, `s'` after it.
  record Climbs (s s' : Reduction f) (ps : List (Point f)) : Type 0 where
    sound : Sound s'
    grows : s.sample_count ≤ s'.sample_count
    above : 0 < s.sample_count → le s.value s'.value ≡ true
    bounds : AtLeast s'.value ps
    source :
        ((s'.value ≡ s.value) × (s'.sample_count ≡ s.sample_count))
        ⊎ ((s'.value ≡ s.value) × (0 < s.sample_count))
        ⊎ Reached s'.value ps

  max_fold :
      (ps : List (Point f)) (s s' : Reduction f)
      → Numeric ps
      → Sound s
      → reduce_all f "max" ps s ≡ some s'
      → Climbs s s' ps
  unfolding reduce_all
  max_fold [] s s' n k e = ground (arith, laws.le_refl s.value)
  max_fold (p ∷ ps) s s' n k e =
      elim (Option-cases (reduce f "max" p (record s { sample_count = s.sample_count + 1 }))) [
        | inl stops ↦ ground arith
        | inr (t, goes) ↦
            let (sound, one_more, over, before, from) = max_step p s t n.0 k goes in
            let rest = max_fold ps t s' n.1 sound (ground arith) in
            record {
              sound = rest.sound;
              grows = ground arith;
              above =
                  λ h. laws.le_trans s.value t.value s'.value (before h) (rest.above (omega arith));
              bounds = (
                laws.le_trans p.value t.value s'.value over (rest.above (omega arith)),
                rest.bounds,
              );
              source = ground arith;
            }
      ]

  max_finish :
      (ps : List (Point f)) (o : Option (Reduction f)) (v : F)
      → Numeric ps
      → reduce_all f "max" ps (empty_reduction f) ≡ o
      → finish f "max" o ≡ some v
      → AtLeast v ps × Reached v ps
  unfolding finish
  max_finish ps none v n e h = ground arith
  max_finish ps (some s) v n e h =
      let c =
        max_fold ps (empty_reduction f) s n (record { number = λ z. absurd (omega arith) }) e in
      let same : v ≡ s.value = ground arith in rw same (c.bounds, ground (arith, c.source))

  -- For comparisons that obey IEEE 754 and a window with no NaN in it, the value of the aggregation
  -- `max` is at least every sample in the window, and is one of them.
  pub aggregate_window-max :
      (ps : List (Point f)) (now window : ℕ) (v : F)
      → Numeric (kept f now window ps)
      → aggregate_window f ps now window "max" ≡ some v
      → AtLeast v (kept f now window ps) × Reached v (kept f now window ps)
  unfolding aggregate_window
  aggregate_window-max ps now window v n h =
      max_finish (kept f now window ps) _ v n refl
        (rw (scan-eq-reduce_all f "max" now window ps (empty_reduction f)) at h)
