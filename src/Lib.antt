-- ===== src/Lib.antt =====
-- The backend of thesdel: a student planner with classes, generated study plans and life schedules,
-- streaks between partners, badges and accounts. A FastAPI service (app/) keeps its state in
-- MongoDB and counters and guards in Redis; routers call services, services call repositories, and
-- a worker runs jobs from a queue.
--
-- The parts and their files:
--
-- Study (Study/Defs) is app/litheral/study/solver.py: the free intervals of a day, chunks of 30 to
-- 60 minutes, the plan of a week and the slot that replaces a block. Its loops are functions by
-- clauses over the sorted busy intervals and the chunks. The while loop of `_split_into_blocks`
-- runs on fuel that is the length of the interval in minutes, which is enough since each round
-- takes at least 30 of them. Study/Free is about the free intervals, Study/Chunks about the chunks,
-- Study/Day, Study/Week and Study/Order about the plan of a day, of a week, and the order of its
-- blocks. Study/Service is app/litheral/study/service.py with its repository: `generate` and
-- `regenerate_block` around the solver, with the timetable, the caps and the stored plan;
-- Study/Subjects is its `_resolve_subjects`. Study/Plan is about `generate`, Study/OwnBlock and
-- Study/Mend about `regenerate_block`.
--
-- Life (Life/Defs) is app/litheral/life/solver.py: classes, study blocks and routines in one
-- layered schedule. Life/Slots is about the search for a slot, Life/Schedule about the layers.
-- Life/Service is app/litheral/life/service.py with its repository, about which Life/Run is: the
-- run that reads the timetable, the plan and the routines, replaces the schedule and pushes a
-- conflict.
--
-- Time is app/shared/time_utils.py and the comparison of texts of app/timetable/schemas.py. A text
-- is a list of digits and other characters.
--
-- Timetable and Routines are app/timetable and app/routines. Both are documents of owners, which a
-- user creates, changes and deletes by id: Documents has that shape once, with the requests on a
-- list of one's own as its specification (Documents/Serves, Documents/LookUp), and Timetable/Owners
-- and Routines/Owners fill it, the routines behind their tier gate.
--
-- Reminders is app/litheral/study/jobs.py: Reminders/Occurrence its date arithmetic, over
-- microseconds, Reminders/Scan the two scans over the users and their blocks, and Reminders/Due is
-- about what they push.
--
-- Usage is app/usage: the monthly caps on generated plans, a Redis counter with a log in MongoDB;
-- Usage/Caps and Usage/Shown are about what is granted, and what a user is shown of it. RateLimit
-- is app/shared/rate_limit.py.
--
-- Progression is app/progression: badges, score, rank and seasons; Progression/Lists has what a
-- user sees of them. Seeding is migrations/0001_seed_progression_badges.py, which fills the
-- catalog, and Seeding/Once is about a run of it that was interrupted. Streaks (Streaks/Data and
-- Streaks/Service) is app/streaks, and calls Progression for the awards of a milestone; both write
-- to the one database. Streaks/OptIn is about invitations, Streaks/CheckIn about check-ins.
--
-- Auth is app/auth. Auth/Store has the repositories; Auth/Accounts registers and logs in,
-- Auth/Refresh rotates refresh tokens, Auth/Mail has the flows of emailed tokens, Auth/Jobs the job
-- that sends an email, Auth/Routes the routes behind their limiters. Auth/Sessions is about
-- sessions, Auth/Tokens about the tokens, Auth/SignIn and Auth/Bearer about whom a login signs in,
-- Auth/Verify about a new account, Auth/Throttle about rows of requests. Security is the access
-- tokens and the Google ID tokens of app/shared/security.py, and Access is app/shared/deps.py: the
-- current user, tier gates and class membership.
--
-- Classes and Notifications are app/classes and app/notifications, the latter with
-- app/shared/push.py in Notifications/Fcm and theorems in Notifications/Pushes and
-- Notifications/Prune. Announcements is app/announcements: Announcements/Cursor the texts of its
-- cursors, Announcements/Feed the client that follows them, Announcements/Post and
-- Announcements/Routes the routes, which use Classes and Notifications. Files is app/files with the
-- in-memory store of app/shared/storage.py; Files/Routes reads the body of an upload, and
-- Files/Storage has the store as a map. Errors is app/shared/errors.py.
--
-- Fuel. The client of Announcements/Feed runs on fuel, of which one more than there are unpinned
-- announcements is enough, since each further page begins behind at least one of them. The loop of
-- Files/Routes has one more than the cap in bytes, since each round reads a byte or ends.
--
-- State is passed on as a value: an operation takes the database and returns its result with the
-- new one, so what was written before an error stays written (`Call` of Errors). MongoDB and Redis
-- are records of operations and documented laws (Mongo, Redis) that the services take as
-- parameters; a database that keeps each collection as a list and a Redis that is up fill them, for
-- the tests. Each Redis command may fail. The laws are those of one client at a time. Other
-- libraries are parameters: hashing, PyJWT, Google's library, the reading of images and of request
-- bodies, the signing of links, FCM, the email provider, the encodings of a cursor, and what
-- `ObjectId(text)` gives. The clock, new ids and random tokens are arguments. An ObjectId is a
-- number, since its text of 24 hexadecimal digits compares as the number does; a moment is a number
-- of seconds or microseconds, as each file says. Python's integers are unbounded, so no number
-- wraps; where the source subtracts, the files say why the difference is not negative, or compare
-- sums.
--
-- Not modelled: the routers that only call a service, middleware, settings, logging, the clients of
-- MongoDB, Redis, R2 and the email provider with their indexes, the list of the worker's jobs, and
-- the web client. Passwords, hashes and random tokens are calls of libraries. The texts of emails,
-- pushes and error messages are left out.
pub mod Base
pub mod Errors
pub mod Mongo
pub mod Redis
pub mod Documents
pub mod Study
pub mod Life
pub mod Time
pub mod Reminders
pub mod Usage
pub mod RateLimit
pub mod Security
pub mod Progression
pub mod Seeding
pub mod Streaks
pub mod Auth
pub mod Access
pub mod Classes
pub mod Notifications
pub mod Announcements
pub mod Timetable
pub mod Routines
pub mod Files
pub mod Tests
