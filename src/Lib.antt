-- ===== src/Lib.antt =====
-- HO, a server that builds and runs web sites with a language model: its decision logic.
--
-- The parts and how they interact. A `PipelineWorker` runs per site (brain/pipeline.go): it builds the
-- site in stages, then monitors it, and takes commands. The plan of a site (brain/plan.go) is parsed
-- from what a language model returns, validated, and patched by updates. The scheduler
-- (brain/scheduler.go) sends a worker the tasks that are due, by cron expressions
-- (internal/cron/cron.go); background jobs (brain/jobs.go) are tried until they succeed or run out of
-- attempts; tasks that need no model run at once (brain/scheduled.go), and long conversations with the
-- model are pruned (brain/messages.go) by the loop of the model and its tools (brain/tool_loop.go). A
-- manager starts and stops the workers (brain/manager.go). The model works through tools: a registry
-- of them (tools/registry.go), an executor of their calls (tools/executor.go), the owner's approval
-- (tools/approval.go), edits of text (tools/editing.go), tables (tools/tables.go) and stored files
-- (tools/storage.go); its providers have a registry too (llm/registry.go). The parts publish events on
-- a bus (events/bus.go). The public server decides what a response shows and which page answers a path
-- (server/public/handler.go), and keeps rooms of WebSocket clients (server/public/ws_hub.go).
-- Responses of the public API are cached by site and table (server/public/cache.go), requests are
-- limited by client (server/middleware/ratelimit.go), and database calls are tried again while SQLite
-- is busy (internal/sqliteretry/retry.go).
--
-- Which file models which part:
--   Prelude            the shared names; Prelude.Bytes has the functions of Go's strings and strconv that
--                      the code uses, on bytes, and Prelude.Int the arithmetic of a 64-bit int
--   Cron.Field         validateField, validateRange, parseField of internal/cron/cron.go
--   Cron.Calendar      the parts of time.Time that NextTime uses, in UTC
--   Cron.Next          Validate and NextTime (validate, next_time; scan is its loop, advance its skips)
--   Events.Bus         Bus, Subscribe, SubscribeAll, Unsubscribe, Publish of events/bus.go
--   Server.Cache       apiCache of server/public/cache.go (get, set, invalidate_table, evict)
--   Server.RateLimit   RateLimiter of server/middleware/ratelimit.go (allow)
--   Retry              Exec, BeginTx and Query of internal/sqliteretry/retry.go (with_retry)
--   Brain.Pipeline     the row of ho_pipeline_state and its writes (brain/plan.go), autoRecover
--   Brain.Pipeline.Build    runBuildPipeline (start, round, rounds)
--   Brain.Pipeline.Worker   Run, handleCommand, runMonitoringLoop, runPausedLoop, monitoringTick (turn)
--   Brain.Plan         Plan and PlanPatch; Patch has ApplyPatch, Check has ValidatePlan
--   Brain.Json         findJSONEnd, countBracketStack, repairTruncatedJSON of brain/plan.go
--   Brain.Progress     buildProgressTracker and buildCostTracker of brain/progress.go
--   Brain.Jobs         processPending and handleFailure of brain/jobs.go, enqueue and cancel of
--                      tools/jobs.go
--   Brain.Scheduler    initializeNextRunForSite and checkDueTasksForSite of brain/scheduler.go
--   Brain.Tasks        executeNativeAction, executeScheduledTask and finalizeTaskRun of
--                      brain/scheduled.go; effect_of is its switch up to the call of the database
--   Brain.Messages     pruneMessages (clean, then compact with zone and back_up) and summarizeToolCall
--   Brain.Loop         runToolLoop (run_tool_loop, step) of brain/tool_loop.go; Execute has
--                      executeToolCalls, Calls callWithRetry and callWithRetryOnProvider
--   Brain.Manager      BrainManager: StartSite, StopSite, StopAll and what reads the workers
--   Tools.Editing      Lines has applyLineEdits, Patches has applyPatches and replaceNear
--   Tools.Registry     the registry of tools; Names sorts their names
--   Tools.Executor     Execute of tools/executor.go (finish is its end, after the tool's run)
--   Tools.Approval     CheckApproval, RequestApproval and LogDestructiveAction
--   Tools.Tables       sanitizedTableName, parseColumnDef, columnSQL, buildWhereClause
--   Tools.Paths        sanitizePath and sanitizeFilename of tools/storage.go
--   Llm                the registry of providers
--   Server.Hub         wsHub of server/public/ws_hub.go
--   Server.Api         of server/public/handler.go: Columns has visibleColumns, parseFieldsParam and
--                      stripSecureColumns, Folder sanitizeUploadFolder, Window checkLLMRateLimit, Pages
--                      findParamPage and homeFallbacks, Params methodAllowed, parseFilterParam and the
--                      limit and offset of apiList
--   Examples           runs on concrete data
-- A component's children are named for what they prove.
--
-- State is passed on explicitly: an operation of a Go type is a function from its record to the new
-- record. What the environment decides (a clock, a handler, a remote call, whether a write succeeds) is an
-- argument. A loop over a slice is a structural recursion. Three loops take fuel: those of the field
-- parser, for which 61 rounds are enough, since a field has at most 60 values and no accepted step is 0;
-- NextTime's search, which is given one round for each of the 527040 minutes of its horizon; and the
-- retries, for which six rounds are enough.
--
-- Not modelled: HTTP, SQL, file and process handling, prompts, the clients of remote services, the web
-- interface, logging, and the timestamps of rows that no decision reads. Time zones other than UTC and
-- white space beyond ASCII are left out. The rate limiter counts in exact fractions of a token where the
-- code has float64. sort.Slice, which is not stable beyond twelve elements, is a stable sort. A broadcast of
-- the hub is one step, where the code sends after it has released its lock. The jobs, the scheduler and
-- the end of a task's run assume that their writes succeed; the build loop does not.
pub mod Prelude
pub mod Cron
pub mod Events
pub mod Server
pub mod Brain
pub mod Retry
pub mod Examples
pub mod Tools
pub mod Llm
