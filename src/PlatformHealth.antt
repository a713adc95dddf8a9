-- ===== src/PlatformHealth.antt =====
-- internal/platformhealth/health.go: the health of the platform itself, gathered from its parts.
pub mod Status
pub mod Watermark
pub mod Source
pub mod Store
