-- ===== src/Events.antt =====
-- events/: the in-process event bus.
pub mod Bus
