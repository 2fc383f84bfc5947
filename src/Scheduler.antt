-- ===== src/Scheduler.antt =====
-- workflow/scheduler.py, with the schedules of workflow/registry_service.py.
pub mod Clock
pub mod Cron
pub mod Due
pub mod Dispatch
mod Samples
