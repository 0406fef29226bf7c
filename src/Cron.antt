-- ===== src/Cron.antt =====
-- internal/cron/cron.go: the five-field cron expressions of scheduled tasks.
pub mod Field
pub mod Calendar
pub mod Next
