-- ===== src/Life.antt =====
-- app/litheral/life/solver.py: classes, study blocks and routines in one layered schedule.
pub mod Defs
pub mod Service
pub mod Slots
pub mod Schedule
pub mod Run
unfoldable pub use Defs.*
