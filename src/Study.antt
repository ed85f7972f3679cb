-- ===== src/Study.antt =====
-- app/litheral/study/solver.py: the constraint solver of study plans. Times are minutes since
-- midnight and dates are day numbers. The score of a subject is a whole number in the source,
-- held in a float, so it is a number here.
pub mod Defs
pub mod Free
pub mod Chunks
pub mod Day
pub mod Week
pub mod Order
pub mod Subjects
pub mod Service
pub mod Plan
pub mod OwnBlock
pub mod Mend
unfoldable pub use Defs.*
