-- ===== src/Lib.antt =====
-- Dockhand, the agent that runs operations on a host for a Docked server: a model of its logic.
--
-- The program keeps a configuration (internal/config), runs the operations configured there and
-- records them in a SQLite table (internal/operations), enrolls with the server
-- (internal/enrollment) and then calls it from time to time (internal/heartbeat). The runner is the
-- centre: a run is admitted under its lock, entered in the history, executed, closed in the history
-- and pruned; then the version of the operation and the system updates of the app may be looked up,
-- cached, and written back to the configuration file. An HTTP API (internal/api) with one bearer key
-- starts, cancels and lists runs, handles the containers of the Docker engine (internal/docker) and
-- updates the program itself; runs and upgrades answer with server-sent events (internal/sse). The
-- watcher of the configuration file reloads the runner.
--
-- Files and the code that they model:
--   Config            internal/config/config.go: the types of the configuration
--   Config/Intervals  internal/config/config.go: SystemUpdates.Enabled, RefreshDuration
--   Config/Loading    internal/config/config.go: Load, applyDefaults, migrateOperationsToApps,
--                     applyEnvOverrides, resolveAPIKey and generateKey, under the same names
--   Config/Yaml       internal/config/writer.go, config.go: the edits of the YAML tree, edit_version for
--                     UpdateOperationVersion and UpdateAppVersion, clear_token for ClearEnrollmentToken
--   Config/Writer     internal/config/writer.go, config.go: the rewriting of the file around the edits;
--                     Writer/Races has concurrent calls with and without the lock as a step relation
--   Config/Watcher    internal/config/watcher.go, writer.go: the ticks of Watch, IsOwnWrite and
--                     recordWriteTime, between edits, renames and records of their times
--   Operations/Slots  internal/operations/runner.go: the maps active, cancels, appsActive and
--                     appsCancels; Slots/Protocol has their use by concurrent runs as a step relation
--   Operations/History       internal/operations/history.go: InsertRun, UpdateRun, Prune and the
--                            listings, as insert_run, update_run, prune, list_history and so on;
--                            History/Log is the table seen as one log for each operation
--   Operations/VersionCache  internal/operations/versioncache.go: Set and Get
--   Operations/SysUpdate     internal/operations/sysupdate.go: the apt checker and the tracker
--   Operations/Output        internal/operations/runner.go: the captured output, truncate and
--                            lastNonEmptyLine; Output/LongLines and Runner/LongLines the lines
--                            that do not fit
--   Operations/Runner        internal/operations/runner.go: Run and RunApp as run and run_app;
--                            Runner/Versions the version lookups, write-backs and Reload;
--                            Runner/Updates checkSystemUpdates and what the API reads of it;
--                            Runner/Followups the goroutines at the end of Run and RunApp;
--                            Runner/Queries what the API reads and cancels; Runner/Warming
--                            warmVersionCache as a list of jobs in any order; Runner/Sessions
--                            sequences of runs, jobs and reloads
--   Enrollment        internal/enrollment/enrollment.go: Run, register, BuildRunnerURL and the marker
--                     file; Enrollment/Restarts has Run over restarts of the program,
--                     Enrollment/ReEnrolling is ReEnroll
--   Heartbeat         internal/heartbeat/heartbeat.go: Start, sendHeartbeat, calcBackoff and the loop;
--                     Heartbeat/Servers is the loop with the calls that it makes
--   Docker/Records     internal/docker/containers.go, management.go: the types of the API and what is
--                      read of those of the engine
--   Docker/Containers  internal/docker/containers.go: the conversions, ListContainers, InspectContainer
--   Docker/Clients     internal/docker/client.go: New, AtomicClient and what asks them
--   Docker/Upgrade     internal/docker/upgrade.go: upgradeStandalone with its rollback
--   Docker/Compose     internal/docker/upgrade.go: upgradeCompose, findComposeFile, UpgradeContainer;
--                      Compose/Streaming is streamCommand
--   Docker/Pulling     internal/docker/upgrade.go, management.go: pullImage and PullImage
--   Docker/Networks    internal/docker/upgrade.go: buildNetworkConfig and shortID
--   Docker/Management  internal/docker/management.go, logs.go, debug.go: the other calls of the engine
--   Sse                internal/sse/sse.go: the events as text; Sse/Decoding is a client's reading of
--                      an event stream, as the standard describes it; Sse/Progress has the writes of
--                      several goroutines to one stream, Sse/Whole and Sse/Apart those that do not run
--                      into each other, Sse/Torn two that do
--   Api                internal/api/handlers/helpers.go: responses
--   Api/Auth           internal/api/middleware/auth.go: extractBearer and the test of Auth
--   Api/Routes         internal/api/server.go: the routes of New and their middleware
--   Api/Logging        internal/api/server.go: loggingMiddleware and responseWriter
--   Api/Operations     internal/api/handlers/operations.go: the handlers of operations; those of apps
--                      are in Api/Operations/Apps
--   Api/Containers     internal/api/handlers/containers.go: the handlers of containers and images;
--                      Containers/Client puts the client of internal/docker behind them
--   Api/Debug          internal/api/handlers/debug.go: the handlers that ask the engine
--   Api/Logs           internal/api/handlers/logs.go: Logs
--   Api/Downloads      internal/api/handlers/system.go: safeHTTPClient and requests with it
--   Api/Binaries       internal/api/handlers/system.go: downloadBinary and verifyChecksum
--   Api/Update         internal/api/handlers/system.go: Update
--   Api/System         internal/api/handlers/system.go: Restart, Uninstall and Reload
--   Api/Health         internal/api/handlers/health.go, debug.go: the two health reports
--   Startup            cmd/runner/main.go: the connection to Docker, and the reload by the watcher;
--                      Startup/Lifecycle is main, as the sequence of what it starts and releases
--   Prelude           texts, lists, maps, results and decimal numbers; the scanner of bufio
--   Tests             examples at concrete inputs
--
-- Conventions:
--   Texts are lists of bytes; trimming and case concern ASCII, and quoting (%q) is that of printable
--   ASCII. Times are nanoseconds since Go's zero time, durations are nanoseconds, the history has
--   Unix seconds. A Go map is an association list, and an absent key reads as the zero value where
--   the code indexes without a test. The outside is an argument: what commands print, what a database
--   call reports, what the network answers, and how SQLite orders rows (the interface Sql: a
--   permutation of the rows in descending order of their start, which for equal starts may be any).
--   A write to the configuration file comes back as a value. In Operations/Runner the calls follow one
--   another, and a goroutine that a run starts is the next step; the interleavings of runs are in
--   Operations/Slots/Protocol, at the grain of the critical sections of the lock. The two goroutines
--   that read a command write to the stream in any order, write by write, and each write is whole;
--   the order in which they store their lines is another such order. The process
--   environment of a command is not modelled.
--   Loops over lists are structural. The retry loop of the enrollment counts the attempts left, five at
--   the start; the doubling of the heartbeat's backoff is structural in the number of failures; the
--   decimal printing has as much fuel as the number, which is more than its digits.
--   A request has at most eleven hops, which the model counts as fuel, and more are never used.
--   The handlers take what a call answers as an argument or in a record of functions; contexts and
--   timeouts show only as the errors that they cause. JSON is encoded by a library: an answer stands
--   for itself, and only the exit code of a stream's last event is written out.
--
-- Not modelled: the pragmas and the schema of the database but for their errors; the demultiplexing of
-- logs; the listener with its timeouts; and the signals, of which one is taken to end the program.
-- They pass calls on to libraries, and none of what is here depends on them.
pub mod Prelude
pub mod Api
pub mod Config
pub mod Docker
pub mod Enrollment
pub mod Heartbeat
pub mod Operations
pub mod Sse
pub mod Startup
pub mod Tests
