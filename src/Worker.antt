-- ===== src/Worker.antt =====
-- The background workers.
pub mod AutoRelease
pub mod TrackingPoll
