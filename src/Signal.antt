-- ===== src/Signal.antt =====
-- The signal backend of dtact-util/src/signal.
pub mod Registry
