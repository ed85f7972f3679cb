-- ===== src/Reminders.antt =====
-- app/litheral/study/jobs.py: reminders of study blocks.
pub mod Occurrence
pub mod Scan
pub mod Due
