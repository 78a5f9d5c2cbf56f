-- ===== src/Lib.antt =====
-- The BugFree Go SDK: how a program's errors become events, and what keeps them few, whole and on
-- their way. This library models the SDK's core as functions on explicit states, one file or folder
-- for each source file.
--
-- The parts, and how they meet. A capture call (client.go) takes an error or a message, asks the
-- sampling draw and the duplicate filter (dedupe.go), and builds an event (event.go) from the stack
-- that the error carries or the caller's own (stack-error.go, stack-trace.go), from the build
-- (build-info.go), the source lines around each frame (source-context.go) and the scope of the
-- request (scope.go). The event goes through the modifiers and BeforeSend to the transport
-- (transport.go), whose worker posts it. Transactions (tracing.go) and sessions (sessions.go) are
-- counted beside the events; the middleware of recover.go, of gin and of gRPC does both for each
-- request. The wrappers of sql-breadcrumbs.go and http-breadcrumbs.go leave steps. The log handler
-- (log-handler.go) turns records into captures and steps, and check-in.go reports the runs of jobs.
-- options.go settles the options and reads the DSN.
--
-- Files:
--   Base        tests and conditionals, lists, integers, byte strings and maps, for all others
--   Dedupe      dedupe.go: Dedupe is the table, admit and evict its operations
--   Errors      stack-error.go and the error functions of scope.go: WithStack is with_stack,
--               errorCallers is error_callers, Errorf is errorf, errorChain is error_chain
--   Build       build-info.go and packageOf: repositoryPath is repository_path
--   Frames      stack-trace.go, errorFrames of stack-error.go, the frame types of event.go,
--               culpritOf of client.go
--   Event       event.go and the modifiers of scope.go
--   Scope       scope.go: a *Scope is `none` or a place of the store `Scopes`; Scope/Read has the
--               reads that follow the parents
--   Source      source-context.go: SourceReader is the cache with its roots
--   Transport   transport.go: Transport is the queue with the pause and the counters; Action is what
--               a goroutine does to it next; Transport/Retry reads the Retry-After header
--   Options     options.go: normalize, and parseDSN as parse_dsn
--   Client      client.go: Client with what was handed to the transport, Moment with what the process
--               answers at a call; Client/Start is NewClient, Client/Capture has the Capture methods
--               and Client/Ids is newEventID
--   Sessions    sessions.go: Aggregator is the counts by minute; Sessions/Reports is the loop that
--               reports them, Sessions/Unordered the map of minutes as a quotient
--   Tracing     tracing.go: spans in a store, Finish as finish_span; Tracing/Traceparent is the W3C
--               header, Tracing/Propagation the ids in it, Tracing/Sampling the decision from the
--               trace id, Tracing/Payload a finished transaction as it is sent, Tracing/Queue those
--               on their way
--   CheckIn     check-in.go: CaptureCheckIn as capture_check_in, WithMonitor as with_monitor
--   LogHandler  log-handler.go: the attributes as trees, fields as fields; LogHandler/Records has
--               Handle as handle
--   Steps       http-breadcrumbs.go and sql-breadcrumbs.go: RoundTrip as round_trip, recordQuery as
--               record_query
--   Sql         sql-breadcrumbs.go: sqlConn is wrap_conn and sqlStmt wrap_stmt, over a driver as a
--               record of its methods; Sql/Drivers wraps drivers and connectors, Sql/Database is what
--               database/sql does with a connection
--   Recover     recover.go: Middleware as begin_request and settle, around the handler;
--               Recover/Panics has Recover, RecoverAndContinue and Go, Recover/Address has RequestURL
--               with what it uses of net/url
--   Gin         gin/gin-middleware.go: Recovery as begin_recovery and recovery, captureErrors as
--               capture_errors
--   Grpc        grpc/grpc-interceptor.go: both interceptors as begin_call and intercept
--   Posting     the request that feedback.go, sessions.go and profiling.go each make
--   Feedback    feedback.go: CaptureFeedback as capture_feedback
--   Profiling   profiling.go: the profiler's loop as run_profiler
--   Pipeline    client.go, finish and Stats: a client in front of a transport, which is the interface
--               Carrier; Pipeline/Http fills it with the SDK's own
--   Lifecycle   client.go: Init, Close, Flush and the shortcuts on the current client;
--               Lifecycle/Starting is NewClient with the parts that it starts
--   Samples     test data; each component's runs are in its Tests
--
-- Representation. A Go string is the list of its bytes, a map with string keys an association list.
-- int64 durations and times are integers with the wrap-around written out where the code can reach
-- it (Transport/Retry). A float64 rate is the fraction that it is. Mutexes make the operations single
-- steps, so concurrency is the order of a list of actions; the one operation of the transport that
-- is not a single step, Send, is two of them.
--
-- Fuel. The line of a scope's parents is followed with the length of the store as fuel: that is
-- enough for a store in which every parent stands before its child, which is how scopes are made.
-- The digits of a number (Steps) are written with one more than the number as fuel, and any larger
-- fuel gives the same (Steps/Digits). Everything else recurses on its data; the retry loop of post has
-- its two attempts.
--
-- Parameters: url.Parse, http.ParseTime, the runtime's frames, the file systems, the clock and the
-- random source; the SQL driver, the gin context, and what gRPC says of an error. Of these only
-- status.Code of no error is assumed to be OK, where a theorem says so.
--
-- Not modelled: JSON, base64 and the making of HTTP requests, which are input and output (what a
-- request came to is an argument); the log lines; what runtime/pprof and runtime/metrics measure. Of
-- database/sql the end of a context, the legacy interfaces of drivers and a check that removes an
-- argument are left out. strings.ToLower and strings.Fields are those of ASCII; a rate is never NaN.
pub mod Base
pub mod Dedupe
pub mod Errors
pub mod Build
pub mod Frames
pub mod Gin
pub mod Grpc
pub mod Event
pub mod Scope
pub mod Source
pub mod Transport
pub mod Options
pub mod Client
pub mod Posting
pub mod Feedback
pub mod Profiling
pub mod Pipeline
pub mod Sessions
pub mod Tracing
pub mod CheckIn
pub mod LogHandler
pub mod Recover
pub mod Steps
pub mod Lifecycle
pub mod Sql
pub mod Samples
