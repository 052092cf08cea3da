-- ===== src/Router.antt =====
-- router: the scheduler of cron-triggered prompts.
pub mod Scheduler
pub mod Conversations
