-- ===== src/Jobs.antt =====
-- The job control of impl/ish.c. A job is named by its place in the list behind `job_head`, where
-- the code holds a pointer to it.
pub mod Status
pub mod Update
pub mod Control
pub mod Commands
pub mod Notify
