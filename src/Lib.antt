-- ===== src/Lib.antt =====
-- The session scheduler: users register for an event, propose discussions, state their interest in
-- them, and the administrator's scheduler places the discussions into the slots of a timetable.
--
-- All state of the event is in an SQLite database, which the Go package `event` reads and changes
-- through transactions. `Db` has the tables (event/eventdb.go, initDb) as lists of rows, with every
-- key that the schema declares checked by the insertions and deletions of Db/Tables; `Sql` has the
-- SQL operations on one table. `Tx` has txLoop and the retry loops (event/eventdb.go): a transaction
-- body is a function of the database and of the faults that the driver reports for its statements,
-- so that busy and locked databases, failing commits and retries are arguments of every operation.
-- Loops run on the list of rounds that they are given; `none` stands for a loop still running when
-- the list has ended, and after the fifth round the first late one ends it.
--
-- Errors: event/errors.go and the error classification of event/eventdb.go.
-- User: event/user.go (NewUser, CheckPassword, SetInterest, GetInterest, UserUpdate, SetVerified,
--   setPassword, DeleteUser). User/Find has the lookups, UserIterate and the tests of rights, on
--   Tx/Variable, which is txLoop round a body that assigns a variable of its caller. bcrypt is the
--   parameter `Bcrypt`.
--   User/Setup has handleAdminPwd (event/event.go).
-- Discussion: event/discussion.go (NewDiscussion, DiscussionUpdate, DiscussionSetPublic,
--   DiscussionSetPossibleSlots, DiscussionGetPossibleSlots, DeleteDiscussion). Discussion/Moderation
--   follows the table of discussions through sequences of calls; Discussion/Full has
--   DiscussionFindByIdFull.
-- Schedule: event/schedule.go (makeSnapshot, makeScheduleHeuristic, placeDiscussions, scheduleSet,
--   MakeSchedule). sort.Slice is the parameter `SliceSort`, of which only the permutation is known.
-- Location: event/location.go. Timetable: event/timetable.go, without GetTimetable.
-- Keyvalue: keyvalue/keyvalue.go, the configuration store of the web application.
-- Sessions: sessions/session.go and sessions/session_store.go.
-- Web: the web application, as functions from a request and the stores of event, configuration and
--   sessions to a response and the stores after it. `Web` has RequestUser (middleware.go), Web/Form
--   parseProfile and the reading of numbers, Web/Uid HandleUidPost, Web/Create HandleDiscussionNew
--   and HandleDiscussionCreate (handle_discussion.go), Web/SignIn FindUser, HandleSessionCreate,
--   HandleSessionDestroy (handle_session.go) and HandleUserCreate (handle_user.go), Web/Admin
--   actions of handle_admin.go and Web/Admin/Actions HandleAdminAction, Web/Middleware
--   Middleware.ServeHTTP, Web/Display UserGetDisplay and DiscussionGetDisplay (display.go).
-- Examples: a small event and site on which the code is run.
--
-- Random identifiers and salts are arguments. Numbers are natural numbers; no value of the code
-- comes near the bounds of a Go int, but those that a form sends, which are read with their bounds.
-- Logging is left out. Not modelled: the templates and what is read to render every page, the
-- handlers that only show pages, the lists of discussions, the start of the program, the opening of
-- files and random test data.
pub mod Base
pub mod Sql
pub mod Errors
pub mod Tx
pub mod Db
pub mod User
pub mod Discussion
pub mod Schedule
pub mod Location
pub mod Timetable
pub mod Keyvalue
pub mod Sessions
pub mod Web
pub mod Examples
