-- ===== src/Metric/Catalog/Tests.antt =====
-- internal/metric/catalog.go on a small catalogue.
use dbs_monitor.Prelude.{
  ◌≡◌, inl, inr, refl, String, true, false, List, [], ◌∷◌, arith, ap, sym, ◌∙◌, str_eq,
}
use dbs_monitor.Metric.Aggregate.{aggregation_none}
use dbs_monitor.Metric.Catalog.{
  Metric, level_instance, server_task, lookup, bound, resolve_slot, resolve_item,
  resolve_for_engine, resolved, metric_engine_mismatch, slot_declared, slot_for, engine_agnostic,
}
use dbs_monitor.Metric.Catalog.Resolution.{
  Lists, Unique, Serves, resolve_for_engine-engine_for, resolve_for_engine-Serves,
}

abbrev metric : String → String → String → Metric
metric id engine slot = record {
  id = id;
  engine = engine;
  level = level_instance;
  aggregation = aggregation_none;
  weight = "";
  slot = slot;
  producer = server_task;
}

abbrev metrics : List Metric
metrics =
    metric "pg.deadlocks" "POSTGRESQL" "deadlocks"
    ∷ metric "my.deadlocks" "MYSQL" "deadlocks"
    ∷ metric "host.disk" engine_agnostic "storage_usage"
    ∷ metric "pg.wal" "POSTGRESQL" ""
    ∷ []

another_engine : resolve_for_engine metrics "pg.deadlocks" "MYSQL" ≡ resolved "my.deadlocks"
unfolding resolve_for_engine resolve_item resolve_slot bound lookup slot_declared
another_engine = refl

private_metric : resolve_for_engine metrics "pg.wal" "MYSQL" ≡ metric_engine_mismatch
unfolding resolve_for_engine resolve_item resolve_slot bound lookup slot_declared
private_metric = refl

abbrev deadlocks : List Metric
deadlocks =
    metric "pg.deadlocks" "POSTGRESQL" "deadlocks" ∷ metric "my.deadlocks" "MYSQL" "deadlocks" ∷ []

-- Metrics of different engines fill no slot twice.
apart :
    (a b x y : Metric)
    → str_eq a.engine b.engine ≡ false
    → x ≡ a
    → y ≡ b
    → str_eq x.engine y.engine ≡ true
    → x.id ≡ y.id
apart a b x y h ex ey e =
    absurd
      (ground (arith, ap (λ z. str_eq z.engine y.engine) ex, ap (λ z. str_eq a.engine z.engine) ey))

deadlocks-Unique : Unique deadlocks
deadlocks-Unique x y (inl ex) (inl ey) f s e = ap (λ z. z.id) (ex ∙ sym ey)
deadlocks-Unique x y (inl ex) (inr (inl ey)) f s e =
    apart (metric "pg.deadlocks" "POSTGRESQL" "deadlocks")
      (metric "my.deadlocks" "MYSQL" "deadlocks") x y refl ex ey e
deadlocks-Unique x y (inl ex) (inr (inr outside)) f s e = absurd outside
deadlocks-Unique x y (inr (inl ex)) (inl ey) f s e =
    apart (metric "my.deadlocks" "MYSQL" "deadlocks")
      (metric "pg.deadlocks" "POSTGRESQL" "deadlocks") x y refl ex ey e
deadlocks-Unique x y (inr (inl ex)) (inr (inl ey)) f s e = ap (λ z. z.id) (ex ∙ sym ey)
deadlocks-Unique x y (inr (inl ex)) (inr (inr outside)) f s e = absurd outside
deadlocks-Unique x y (inr (inr outside)) m f s e = absurd outside

resolve_for_engine-engine_for_example :
    resolve_for_engine deadlocks "pg.deadlocks" "POSTGRESQL" ≡ resolved "pg.deadlocks"
unfolding lookup slot_declared
resolve_for_engine-engine_for_example =
    resolve_for_engine-engine_for deadlocks "pg.deadlocks"
      (metric "pg.deadlocks" "POSTGRESQL" "deadlocks") deadlocks-Unique refl (inr refl)

resolve_for_engine-Serves_example :
    (x : Metric) × Lists x metrics
    × Serves "my.deadlocks" (slot_for metrics "pg.deadlocks") "MYSQL" x
resolve_for_engine-Serves_example =
    resolve_for_engine-Serves metrics "pg.deadlocks" "MYSQL" "my.deadlocks" another_engine
