-- ===== src/Alerting/Health/Attribution.antt =====
-- The alert to which a rollup attributes the state of the instance.
use dbs_monitor.Prelude.{
  ℕ, ◌<◌, ◌≡◌, refl, ◌⊎◌, inl, inr, Bool, true, false, Option, none, some, List, [], ◌∷◌, arith,
  if◌then◌else◌, All, Bool-cases,
}
use dbs_monitor.Alerting.Health.{
  Severity, critical_severity, warning_severity, info_severity, unlisted, HealthAlert,
  HealthRollupInput, HealthAttribution, Scan, has_higher_attribution_priority, attribute, visit,
  scan, start, attribution_of, rollup_instance_health,
}
use dbs_monitor.Alerting.Health.Counts.{is_counted}

-- Critical before warning, warning before info, info before what is none of them.
abbrev pub is_more_severe : Severity → Severity → Bool
is_more_severe critical_severity warning_severity = true
is_more_severe critical_severity info_severity = true
is_more_severe critical_severity unlisted = true
is_more_severe warning_severity info_severity = true
is_more_severe warning_severity unlisted = true
is_more_severe info_severity unlisted = true
is_more_severe _ _ = false

module _ {V : Type 0} where
  -- `a` is of higher severity than `b`, or of the same severity and was triggered earlier.
  abbrev pub Precedes : HealthAlert V → HealthAlert V → Type 0
  Precedes a b =
      (is_more_severe a.severity b.severity ≡ true)
      ⊎ (a.severity ≡ b.severity) × (a.first_triggered_at < b.first_triggered_at)

  -- No alert of the list that counts precedes `b`.
  abbrev pub First : HealthAlert V → List (HealthAlert V) → Type 0
  First b = All λ a. is_counted a ≡ true → ¬ Precedes a b

  -- The same, as the code compares them.
  abbrev Unbeaten : HealthAlert V → List (HealthAlert V) → Type 0
  Unbeaten b = All λ a. is_counted a ≡ true → has_higher_attribution_priority a b ≡ false

  -- `b` is an alert of the list, and counts.
  abbrev pub Counted : HealthAlert V → List (HealthAlert V) → Type 0
  Counted b [] = ⊥
  Counted b (a ∷ alerts) = ((b ≡ a) × (is_counted a ≡ true)) ⊎ Counted b alerts

  -- No alert of the list counts.
  abbrev pub NoneCounted : List (HealthAlert V) → Type 0
  NoneCounted = All λ a. is_counted a ≡ false

  Unbeaten-of_NoneCounted :
      (b : HealthAlert V) (l : List (HealthAlert V)) → NoneCounted l → Unbeaten b l
  Unbeaten-of_NoneCounted b [] h = tt
  Unbeaten-of_NoneCounted b (a ∷ l) h = (λ k. ground arith, Unbeaten-of_NoneCounted b l h.1)

  visit-attributed :
      (now : ℕ) (a : HealthAlert V) (s : Scan V)
      → (visit now a s).attributed
        ≡ (if is_counted a then attribute a s.attributed else s.attributed)
  unfolding visit
  visit-attributed now a s = ground arith

  -- What holds of the attributed alert after some alerts of a list were visited, from `before`.
  abbrev Leads : Option (HealthAlert V) → List (HealthAlert V) → Option (HealthAlert V) → Type 0
  Leads none l none = NoneCounted l
  Leads (some c) l none = ⊥
  Leads none l (some b) = Unbeaten b l × Counted b l
  Leads (some c) l (some b) =
      Unbeaten b l × (has_higher_attribution_priority c b ≡ false) × ((b ≡ c) ⊎ Counted b l)

  higher_irrefl : (b : HealthAlert V) → has_higher_attribution_priority b b ≡ false
  unfolding has_higher_attribution_priority
  higher_irrefl b = ground arith

  higher_asymm :
      (a b : HealthAlert V)
      → has_higher_attribution_priority a b ≡ true
      → has_higher_attribution_priority b a ≡ false
  unfolding has_higher_attribution_priority
  higher_asymm a b h = ground arith

  -- What is not before `b` is not before what is not after `b`.
  not_higher_trans :
      (a b c : HealthAlert V)
      → has_higher_attribution_priority a b ≡ false
      → has_higher_attribution_priority b c ≡ false
      → has_higher_attribution_priority a c ≡ false
  unfolding has_higher_attribution_priority
  not_higher_trans a b c h k = ground arith

  Leads-attribute :
      (a b c : HealthAlert V) (l : List (HealthAlert V))
      → is_counted a ≡ true
      → Leads (attribute a (some c)) l (some b)
      → Leads (some c) (a ∷ l) (some b)
  unfolding attribute
  Leads-attribute a b c l e h = elim (Bool-cases (has_higher_attribution_priority a c)) [
    | inl higher ↦
        let (first, not_after, from) = rw (higher, attribute) at h in
        (
          (λ _. not_after, first),
          not_higher_trans c a b (higher_asymm a c higher) not_after,
          elim from [ inl p ↦ inr (inl (p, e)) | inr q ↦ inr (inr q) ],
        )
    | inr lower ↦
        let (first, not_after, from) = rw (lower, attribute) at h in
        (
          (λ _. not_higher_trans a c b lower not_after, first),
          not_after,
          elim from [ inl p ↦ inl p | inr q ↦ inr (inr q) ],
        )
  ]

  Leads-attribute-none :
      (a c : HealthAlert V) (l : List (HealthAlert V)) → ¬ Leads (attribute a (some c)) l none
  unfolding attribute
  Leads-attribute-none a c l h = ground arith

  Leads-cons :
      (a : HealthAlert V) (l : List (HealthAlert V)) (o r : Option (HealthAlert V)) (counted : Bool)
      → is_counted a ≡ counted
      → Leads (if counted then attribute a o else o) l r
      → Leads o (a ∷ l) r
  unfolding attribute
  Leads-cons a l none none true e h = absurd h
  Leads-cons a l none (some b) true e h =
      ((λ _. h.1, h.0), elim h.2 [ inl p ↦ inl (p, e) | inr q ↦ inr q ])
  Leads-cons a l (some c) none true e h = absurd (Leads-attribute-none a c l h)
  Leads-cons a l (some c) (some b) true e h = Leads-attribute a b c l e h
  Leads-cons a l none none false e h = (e, h)
  Leads-cons a l none (some b) false e h = ((λ k. ground arith, h.0), inr h.1)
  Leads-cons a l (some c) none false e h = h
  Leads-cons a l (some c) (some b) false e h =
      ((λ k. ground arith, h.0), h.1, elim h.2 [ inl p ↦ inl p | inr q ↦ inr (inr q) ])

  Leads-nil : (o : Option (HealthAlert V)) → Leads o [] o
  Leads-nil none = tt
  Leads-nil (some b) = (tt, higher_irrefl b, inl refl)

  scan-Leads :
      (now : ℕ) (alerts : List (HealthAlert V)) (s : Scan V)
      → Leads s.attributed alerts (scan now alerts s).attributed
  unfolding scan
  scan-Leads now [] s = Leads-nil s.attributed
  scan-Leads now (a ∷ alerts) s =
      Leads-cons a alerts s.attributed _ (is_counted a) refl
        (rw (← visit-attributed now a s) (scan-Leads now alerts (visit now a s)))

  Precedes-higher :
      (a b : HealthAlert V) → Precedes a b → has_higher_attribution_priority a b ≡ true
  unfolding has_higher_attribution_priority
  Precedes-higher a b h = ground (arith, h)

  Unbeaten-First : (b : HealthAlert V) (l : List (HealthAlert V)) → Unbeaten b l → First b l
  Unbeaten-First b [] h = tt
  Unbeaten-First b (a ∷ l) h =
      (λ counted before. cc (h.0 counted, Precedes-higher a b before), Unbeaten-First b l h.1)

  settle :
      (l : List (HealthAlert V)) (o : Option (HealthAlert V)) {x : HealthAttribution V}
      → Leads none l o
      → attribution_of o ≡ some x
      → (b : HealthAlert V) × (x
          ≡ record { rule_name = b.rule_name; current_value = b.current_value })
        × Counted b l
        × First b l
  unfolding attribution_of
  settle l none h e = cc
  settle l (some b) h e = (b, ground arith, h.1, Unbeaten-First b l h.0)

  -- When a rollup attributes the state of the instance, it names the rule and the value of one of
  -- the alerts that count, and no alert that counts precedes that one: none is of higher severity
  -- (critical, then warning, then info, then any other), and none of the same severity was triggered
  -- earlier.
  pub rollup-attribution :
      (input : HealthRollupInput V) {x : HealthAttribution V}
      → (rollup_instance_health input).attribution ≡ some x
      → (b : HealthAlert V) × (x
          ≡ record { rule_name = b.rule_name; current_value = b.current_value })
        × Counted b input.alerts
        × First b input.alerts
  unfolding rollup_instance_health
  rollup-attribution input e =
      settle input.alerts _ (scan-Leads input.now input.alerts (start input)) e
