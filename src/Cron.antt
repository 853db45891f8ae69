-- ===== src/Cron.antt =====
-- The scheduled jobs of core/cron.go: the jobs and their fields, the store, the scheduler with the runs of
-- the jobs. The package robfig/cron is an interface, `Scheduler.CronLib`, with laws, `Laws.CronLaws`;
-- `strings.TrimSpace`, `strings.ToLower` and the texts that `fmt` makes are parameters.
pub mod Job
pub mod Fields
pub mod Kept
pub mod Store
pub mod Scheduler
pub mod Laws
pub mod Schedule
pub mod Keeps
pub mod Updates
pub mod Starting
pub mod Runs
pub mod Sound
pub mod Boot
pub mod Execute
pub mod Errors
