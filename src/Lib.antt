-- ===== src/Lib.antt =====
-- A task manager: an HTTP service over PostgreSQL, with a cache-aside decorator over Redis. This library
-- models the core of it, and proves what a caller of each part may rely on.
--
-- The parts and their files:
-- - internal/entity (Entity.antt, Errors.antt): the task, its statuses and limits, the error variables.
-- - internal/param (Param.antt): requests and responses; `with_clamped_limit` is WithClampedLimit.
-- - internal/validator/taskvalidator (Validator.antt): one function for each check and each request;
--   Validator/Checks, Maps, Create, Update and Listing hold what they accept and report.
-- - internal/service/taskservice/service.go (Service.antt): `create`, `get_by_id`, `list`, `update`,
--   `delete` and `count`, over a `Repository` (Repository.antt), the interface that the service and the
--   decorator consume. Repository/Tasks is the abstract table of tasks and Repository/Spec the contract
--   that a repository keeps with it. Service/Pages, Cursors and Paging are about lists, Service/Tasks
--   about single tasks.
-- - internal/repository/redis/redistask/task.go (Cache.antt with Cache/Base, Cache/Count, Cache/Keys):
--   the decorator. Redis.antt is the client and the server that it calls, with the two Lua scripts of
--   the source; Redis/Laws says what Redis documents and Redis/Effects what follows for each command.
--   Cache/Coherence and the files under it say when the cache agrees with the table below and which steps
--   keep that, and Cache/Refinement puts them together; Cache/Interleaved, Cache/Generations and Cache/Evictions are step relations for any number of clients
--   that use the count, the lists and one task at once, a command at a time, with Cache/Clients for what
--   they share. Cache/Transparent is about writes whatever Redis answers,
--   Cache/Outage about reads with Redis down; the files under Cache/Keys are about
--   which keys differ.
-- - internal/delivery/httpserver/taskhandler/handler.go (Handler.antt): the five handlers over any task
--   service, with `bind_json`, `bind_query`, `parse_id` and `write_error`. What gin reads of a request is
--   a parameter. Handler/Ids is about ids in paths, Handler/Gate about what reaches the service,
--   Handler/Lookup about the statuses of `get`. Handler/Table is what each handler answers over the
--   abstract table, Handler/Sent, Passed and Sessions that the handlers do so, and Handler/Traces is about
--   requests one after the other.
-- - internal/config/config.go (Config.antt): the settings, `validate`, and the reading of single
--   variables, over the environment as a function; Config/Checks says what is accepted, Config/Loading what
--   a configuration that `load` gives has passed.
--
-- - internal/repository/postgres/postgrestask/task.go (Postgres/Adapter): the text of each statement with
--   its arguments, and the six operations over a pool. Postgres.antt is the pool, Postgres/Statements the
--   statements as PostgreSQL reads them, Postgres/Texts their texts, Postgres/Execution what each does to
--   the table, Postgres/Placeholders which arguments fit; Postgres/Laws says what PostgreSQL documents of
--   these texts and no others: a statement that fails has left the rows, or was carried out and its answer
--   is lost. Postgres/Built is about the texts, Postgres/Lives, Scans, Patches, Reads, Sequence, Creates
--   and Writes about rows, Postgres/Settles and Settled about how a write can end, and
--   Postgres/Refinement puts them together.
--
-- - internal/delivery/httpserver/middleware, internal/requestid and internal/logger/sloglogger
--   (Middleware.antt): each middleware around the handlers that follow it; Middleware/Ids is about the id
--   of a request. internal/delivery/httpserver/server.go (Router.antt): what `Setup` registers, with
--   `SetRoutes`; Router/Layers says which middleware each route has, Router/Served what comes of a request.
-- - cmd/api/main.go (Api.antt): what `run` does from the start of its servers to its return, as steps of
--   `run` and of the goroutines in any order, with `Serve` and `Shutdown` of both servers
--   (internal/profiler/server.go is the other). Api/Counts is about the buffer of results, Api/Closed
--   about the servers that were shut down, Api/Ends about the end of `run`, Api/Events and Api/Report about what it has done by then.
-- - cmd/api/main.go (Stack.antt): how `run` puts the handlers, the service, the decorator and the adapter
--   together.
-- - internal/migrator/migrator.go and cmd/migrate/main.go (Migrate.antt): the migrator and its command over
--   an engine; Migrate/Laws says what golang-migrate documents, Migrate/Closes is about the handle of the
--   database (Resources.antt), Migrate/Reports about what the command has done and printed.
--
-- - internal/repository/postgres/postgres.go, internal/repository/redis/redis.go, the start of `run` in
--   cmd/api/main.go, and cmd/healthcheck/main.go (Startup.antt): the connections as the calls that open and
--   close them; Startup/Closes is about those. internal/metrics/metrics.go and `refreshTaskGauge` of
--   cmd/api/main.go (Gauge.antt): the gauge of the number of tasks; Gauge/Follows says what it shows.
--
-- State is passed on: an operation takes a state and returns a result and the next state (Exec.antt). A
-- result is a value or an error; errors are values that wrap others, as `fmt.Errorf("…%w", err)` does.
-- Numbers are integers over the native numbers, with the wrap-around of int64 where the source adds or
-- multiplies (Prelude/Int.antt). The parts of Go's library that the program uses are in Prelude/Format
-- (decimal numbers, Sprintf, Join), Strconv (ParseInt), Json (the encoding of tasks) and Cache/Keys
-- (QueryEscape).
--
-- Bounds and fuel: `attempt`, the loop that takes the count lock, is recursive on the number of its
-- retries, 400 for `invalidate_count` (four seconds at ten milliseconds each) and a parameter for
-- `count`, where the caller's context bounds it. `collect`, a client that follows `next_cursor`, takes
-- fuel; one more than the number of matching tasks is enough, since a page holds at least one task.
--
-- Parameters: the repository below the decorator, the Redis client, the PostgreSQL pool, what gin reads,
-- what net/http answers, the tables of Unicode, the migration engine, the time to live and the tokens that
-- `rand.Text()` draws. A context is not modelled: a cancelled call is a call that returns an error. A key
-- that expires or is evicted is one that Redis drops between two commands, so times to live are carried
-- and not counted down. A text is a sequence of characters: a title that is not valid UTF-8 is not
-- modelled.
--
-- Not modelled: which path leads to which route, the routes of the profiler, the collectors of Prometheus,
-- the lines that `run` logs, and the generated documentation.
pub mod Postgres
pub mod Prelude
pub mod Errors
pub mod Entity
pub mod Param
pub mod Validator
pub mod Exec
pub mod Repository
pub mod Service
pub mod Strconv
pub mod Json
pub mod Redis
pub mod Cache
pub mod Handler
pub mod Config
pub mod Api
pub mod Stack
pub mod Startup
pub mod Gauge
pub mod Resources
pub mod Migrate
pub mod Middleware
pub mod Router
pub mod Tests
