-- ===== src/Metric/Catalog/Resolution.antt =====
-- What the resolution of a metric in internal/metric/catalog.go comes to.
use dbs_monitor.Prelude.{
  ◌≡◌, ◌⊎◌, inl, inr, refl, String, true, false, ◌&&◌, ◌||◌, some, List, [], ◌∷◌, if◌then◌else◌,
  str_eq, eq_iff, arith, ap, sym, ◌∙◌, Bool-cases, Option-cases,
}
use dbs_monitor.Metric.Catalog.{
  Metric, resolved, lookup, bound, resolve_slot, resolve_item, resolve_for_engine, engine_agnostic,
  slot_declared, slot_for,
}

abbrev pub Lists : Metric → List Metric → Type 0
Lists item [] = ⊥
Lists item (x ∷ xs) = (item ≡ x) ⊎ Lists item xs

lookup-Lists :
    (metrics : List Metric) (id : String) (item : Metric)
    → lookup metrics id ≡ some item
    → Lists item metrics × (item.id ≡ id)
unfolding lookup
lookup-Lists [] id item h = absurd (ground arith)
lookup-Lists (x ∷ xs) id item h = ground (arith, lookup-Lists xs id item, eq_iff x.id id)

same_text : (x : String) → str_eq x x ≡ true
same_text x = (eq_iff x x).1 refl

-- Where an entry fills the slot on the engine, and any other that does has the same identifier, the
-- loop comes back with that.
bound_lem :
    (metrics : List Metric) (slot engine agnostic : String) (item : Metric)
    → Lists item metrics
    → str_eq item.slot slot ≡ true
    → str_eq item.engine engine ≡ true
    → ((x : Metric)
        → Lists x metrics
        → str_eq x.slot slot ≡ true
        → str_eq x.engine engine ≡ true
        → x.id ≡ item.id)
    → bound metrics slot engine agnostic ≡ resolved item.id
unfolding bound
bound_lem [] slot engine agnostic item h s e unique = absurd h
bound_lem (x ∷ xs) slot engine agnostic item (inl same) s e unique =
    let on_slot : str_eq x.slot slot ≡ true = ap (λ y. str_eq y.slot slot) (sym same) ∙ s in
    let on_engine : str_eq x.engine engine ≡ true =
      ap (λ y. str_eq y.engine engine) (sym same) ∙ e in
    rw (on_slot, on_engine) (ap (λ y. resolved y.id) (sym same))
bound_lem (x ∷ xs) slot engine agnostic item (inr later) s e unique =
    let next =
      if str_eq x.slot slot
      then if str_eq x.engine engine_agnostic then x.id else agnostic
      else agnostic in
    ground (
      arith,
      unique x (inl refl),
      bound_lem xs slot engine next item later s e (λ y m a b. unique y (inr m) a b),
    )

-- Two entries that fill the same slot on the same engine are of one metric.
abbrev pub Unique : List Metric → Type 0
Unique metrics =
    (x y : Metric)
    → Lists x metrics
    → Lists y metrics
    → str_eq y.slot "" ≡ false
    → str_eq x.slot y.slot ≡ true
    → str_eq x.engine y.engine ≡ true
    → x.id ≡ y.id

-- In a table where no two metrics fill the same slot on the same engine, a metric that fills no slot
-- or a declared one resolves, on its own engine, to itself.
pub resolve_for_engine-engine_for :
    (metrics : List Metric) (id : String) (item : Metric)
    → Unique metrics
    → lookup metrics id ≡ some item
    → (item.slot ≡ "") ⊎ (slot_declared item.slot ≡ true)
    → resolve_for_engine metrics id item.engine ≡ resolved id
unfolding resolve_for_engine resolve_item resolve_slot
resolve_for_engine-engine_for metrics id item unique found slots =
    let (member, named) = lookup-Lists metrics id item found in
    elim (Bool-cases (str_eq item.slot "")) [
      | inl free ↦ rw (found, free) (ground (arith, eq_iff item.engine item.engine))
      | inr filled ↦
          rw (found, filled)
            (ground (
              arith,
              bound_lem metrics item.slot item.engine "" item member (same_text item.slot)
                  (same_text item.engine) (λ x m s e. unique x item m member filled s e),
              eq_iff item.slot "",
            ))
    ]

-- The entry measures the metric on the engine: it is of the engine or of none.
abbrev pub Serves : String → String → String → Metric → Type 0
Serves id slot engine x =
    (x.id ≡ id) × (x.slot ≡ slot) × ((x.engine ≡ engine) ⊎ (x.engine ≡ engine_agnostic))

bound-Serves :
    (metrics : List Metric) (slot engine agnostic id : String)
    → bound metrics slot engine agnostic ≡ resolved id
    → ((x : Metric) × Lists x metrics × Serves id slot engine x)
      ⊎ ((id ≡ agnostic) × (str_eq agnostic "" ≡ false))
unfolding bound
bound-Serves [] slot engine agnostic id h = inr (ground arith, ground arith)
bound-Serves (x ∷ xs) slot engine agnostic id h =
    let next =
      if str_eq x.slot slot
      then if str_eq x.engine engine_agnostic then x.id else agnostic
      else agnostic in
    elim (Bool-cases (str_eq x.slot slot && str_eq x.engine engine)) [
      | inl here ↦ inl (x, inl refl, ground (arith, eq_iff x.slot slot, eq_iff x.engine engine))
      | inr elsewhere ↦ elim (bound-Serves xs slot engine next id (ground arith)) [
        | inl (y, member, serves) ↦ inl (y, inr member, serves)
        | inr (last, filled) ↦
            elim (Bool-cases (str_eq x.slot slot && str_eq x.engine engine_agnostic)) [
              | inl here ↦
                  inl (
                    x,
                    inl refl,
                    ground (arith, eq_iff x.slot slot, eq_iff x.engine engine_agnostic),
                  )
              | inr elsewhere ↦ inr (ground arith, ground arith)
            ]
      ]
    ]

-- A metric that another resolves to is in the table, for the engine or for none, and fills the slot
-- that the other fills.
pub resolve_for_engine-Serves :
    (metrics : List Metric) (id engine resolution : String)
    → resolve_for_engine metrics id engine ≡ resolved resolution
    → (x : Metric) × Lists x metrics × Serves resolution (slot_for metrics id) engine x
unfolding resolve_for_engine resolve_item resolve_slot slot_for
resolve_for_engine-Serves metrics id engine resolution h = elim (Option-cases (lookup metrics id)) [
  | inl missing ↦ absurd (ground arith)
  | inr (item, found) ↦
      let (member, named) = lookup-Lists metrics id item found in
      elim (Bool-cases (str_eq item.engine engine_agnostic || str_eq item.slot "")) [
        | inl own ↦ (
          item,
          member,
          ground (arith, eq_iff item.engine engine_agnostic, eq_iff item.engine engine),
        )
        | inr shared ↦
            rw found (elim (bound-Serves metrics item.slot engine "" resolution (ground arith)) [
              | inl served ↦ served
              | inr (last, filled) ↦ absurd (ground arith)
            ])
      ]
]
