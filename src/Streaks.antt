-- ===== src/Streaks.antt =====
-- app/streaks/service.py and app/streaks/repository.py: streaks of two partners. An ObjectId is a
-- number: its text is 24 lower case hexadecimal digits, which compare as the numbers do. A moment
-- is a number of microseconds. What `ObjectId(value)` makes of a client's text is a parameter.
pub mod Data
pub mod Service
pub mod OptIn
pub mod CheckIn
