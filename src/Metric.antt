-- ===== src/Metric.antt =====
-- internal/metric: the catalogue and the partitions of the samples, tasks and the capabilities they need,
-- rates, aggregates and the control plane.
pub mod Catalog
pub mod Partitions
pub mod Task
pub mod Capability
pub mod Rate
pub mod Aggregate
pub mod Series
pub mod ControlPlane
