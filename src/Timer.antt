-- ===== src/Timer.antt =====
-- The native timer backend of dtact-util/src/timer.
pub mod Wheel
