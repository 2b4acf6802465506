-- ===== src/Health.antt =====
-- The health that the agent shows (agent/internal/agent): the verdict engine's, and what the
-- inventory, the thresholds and the advanced checks add to it.
pub mod Sets
pub mod Limits
pub mod ServiceLimits
pub mod Advanced
pub mod Inventory
pub mod Overlay
pub mod Codes
pub mod Worst
pub mod Exceeded
pub mod ServicesExceeded
pub mod Shown
mod Tests
