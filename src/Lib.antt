-- ===== src/Lib.antt =====
-- MockVision: a node that simulates IP cameras. This library models the parts of its backend that
-- keep state, and proves what makes them correct.
--
-- The parts, their files here and their code (paths are below backend/internal/):
--   Domain       the lifecycle of cameras, their names, tags and slugs, and the back-off of
--                retries: domain/camera.go. Users, Masks, Network, Admission and Profiles are
--                the files of domain/ with these names.
--   Worker       the queue of background jobs. Worker/Table is the tables jobs and job_events with
--                the queries of store/db/jobs.sql.go; Worker/State, Loop, Requests and Listing are
--                worker/runner.go; Worker/Handle is what a running handler calls, worker/run.go;
--                Worker/Job is worker/job.go. Worker/Steps makes the operations, and the
--                restart of the process, the steps of one machine, and Worker/Limits has the
--                bounds.
--   Hub          the messages to the panel: api/hub.go and the client of api/ws.go
--   Digest       the cache against replayed Digest headers: engines/httpapi/digest.go
--   Guard        the login guard of app/auth.go and the token bucket of app/supervisor.go
--   Access       sessions, sign-ins and API tokens: app/auth.go without the guard, app/tokens.go,
--                and in Access/Db the queries of store/db/auth.sql.go and tokens.sql.go
--   Supervisor   starting and stopping cameras, retries, reconciliation and the names of
--                network namespaces: app/supervisor.go. Supervisor/Session is a camera's session,
--                from startSession to its end.
--   Camera       the events of a camera's process: camera/events.go
--   Push         the engine that delivers events: engines/httppush/engine.go
--   Telemetry    the samples of cameras: telemetry/telemetry.go
--   Bulk         actions on several cameras and the next free address: app/bulk.go
--   Prelude      shared names, lists, Go maps and signed integers
--   Tests        the theorems at concrete inputs
-- The runner publishes to the hub; the supervisor follows the lifecycle and the back-off of Domain,
-- and its sessions report failures to its retries; sign-ins ask the guard; the guard and the
-- supervisor pace with the same bucket; the events of a camera are handed to the engine of Push.
--
-- How state corresponds: a struct is a record with the source's field names, an enumeration is a
-- data type, a method is a function from the state to the state with what it returns, and a map is
-- a list of entries with one entry to a key, whose order stands for the order of a `range` loop.
-- Every operation of the runner, the hub, the guard and the cache holds its lock from its first
-- read to its last write, so it is one step; Ask releases the lock while it waits, and is two. Prune
-- takes the lock only in each of its Cancels and is one step too, since no other operation changes
-- the rows that it lists to delete. A setup is one step as well, but what other requests do to the
-- database before its transaction is an argument. A chain of steps is a list of operations with their times. Goroutines that run side by side, the
-- deliveries of Push and the password hashes of Access, are interleaved: a list of moves says which
-- goes on. A session's waits end as its Course says, so what is proved holds for every outcome.
--
-- Numbers and texts: times are milliseconds or nanoseconds as the code stores them, and 0 is the
-- zero time. The sequence numbers of the hub and the durations of the back-off wrap around at 2^64.
-- Progress and tokens, floats in the code, are counted in millionths and in nanoseconds, without
-- rounding. IDs that are only compared are numbers; texts that are walked are lists of runes.
-- Messages of errors are kept without the values that are printed into them.
--
-- Fuel: the loop of the replay cache's prune has one round for each nonce that is left, and it is
-- proved that it never runs out; the loop of HumanBytes has six rounds, one for each power of 1024 in
-- 64 bits, and more rounds are proved to change nothing.
--
-- Parameters: what packages unicode, encoding/json, net/netip and crypto compute, how http spells a
-- header's name, the calendar, and whether a call of the database succeeds, which the n-th call asks
-- of a function. The moment at which a clock is read is an argument.
--
-- Not modelled: input and output, crypto, the HTTP handlers, the media pipeline, the sandbox, the
-- kernel's network, the camera process but for its events, the engines for HTTP API and RTSP, profile
-- documents, templates, and of the runner its Wait, which blocks.
pub mod Prelude
pub mod Domain
pub mod Worker
pub mod Hub
pub mod Digest
pub mod Guard
pub mod Supervisor
pub mod Push
pub mod Access
pub mod Telemetry
pub mod Camera
pub mod Bulk
pub mod Tests
