-- ===== src/Lib.antt =====
-- pepperbus: a message bus. A client pushes jobs over the Redis protocol to the gateway; the mux
-- server puts them into the Redis lists of every topic of their queue; workers take them from
-- there, send them to a consumer over CGI or HTTP, and move what fails through a retry queue.
--
-- Files and the code that they model (paths from the repository's root):
--   Base          numbers, byte texts (Go strings), decimal numbers with a sign or none, maps, and int64
--                 over signed integers
--   Redis         utility/msgRedis/commands.go: the list commands, over the answers of CallN
--                 (Wire: requests and replies; Healthy: the documented laws of the commands;
--                 Laws: the same through the client; Memory: a server that keeps them)
--   Redis/Commands  utility/msgRedis/commands.go: every command of the client over CallN, in Keys, Sets,
--                 Strings (Multi), Hashes (ReadMap), Lists (Agree: the commands of Redis), Sorted and
--                 Scripts (Slots)
--   Redis/Pipeline  utility/msgRedis/conn.go: PipeSend, PipeExec (Replies)
--   Redis/Transactions  utility/msgRedis/conn.go: MULTI, TransSend, TransExec, Discard, Watch
--   Redis/Resp    utility/msgRedis/conn.go: requests as bytes, readResponse (Encode: what a server
--                 writes; Total, RoundTrip, Errors)
--   Redis/Call    utility/msgRedis/conn.go, once.go: Call, CallN and its retries (Balance)
--   Redis/Pool    utility/msgRedis/pool.go: Pop and Push of interleaved callers as a step relation
--                 (Bounds, Exceeded)
--   Redis/MultiPool  utility/msgRedis/pool.go: the pools of several servers (ByKey)
--   Job           job.go: Job, Jobs; encoding/json is the parameter Codec; ParseJob and the ids of
--                 id.go (Parse), over idgen as a parameter
--   Ids           id.go: the address in trace ids, ParseTraceId (Trace)
--   Storage       storage.go: AddQueue, GetJobsFromQueue, RetryQueue, CleanQueue, GetLength, GetKey
--                 (Fifo, Topic: a topic as three queues of jobs; Recover, Apart, Maintain,
--                 KeyLaws)
--   Response      cgi.go: WorkerResponse and its codes; the retries of CgiManager.Request (Request), what
--                 is sent and received (Cgi), and SendStatus (Status: the page of the manager)
--   Mux           mux.go: one round of the worker loop (consume) and of the retry loop (retry_round),
--                 the pings (Ping), where jobs go (Consume, Retry), many rounds (Drain), how long jobs
--                 are retried (Schedule, and in its Rounds what the loop does)
--   Config        setting.go: the configuration of queues and topics, and its marking by the tags
--                 of a machine (Tags: Marked, Machine, Kept)
--   Setting       setting.go: parseQueueConfig, UpdateSetting, the sections of the configuration
--                 (Serving: from the settings to the muxers of MuxServer)
--   MuxServer     mux_server.go: Serve's commands, UpdateConfigs (Converge, Muxers), AddJobs, GetJobs,
--                 GetMuxer (Dispatch)
--   Gateway       gateway.go: auth, checkAuth, ping, lpush, rpop (Auth, Push), and a connection to it
--                 (Session; Refused: without a password; Behind: replies and commands)
--   HttpWorker    http_worker.go: the same rounds for an HTTP consumer, its ping (Ping) and its posts
--                 (Post)
--   Sdk/Client    sdk/golang/client.go: AddJobs and Auth (Delivers: against Gateway)
--   Sdk/Worker    sdk/golang/server.go: the answers of a consumer (Rounds: against HttpWorker)
--   CgiPool       cgi_conn_pool.go: the callers of a connection pool as a step relation (Bounds), and the
--                 pools by their keys (Manager)
--   Stats         mux_stats.go, gateway_stats.go (Gateway): the numbers of a topic (Counts, MinTime)
--   Records       task_debug.go, error_collection.go: records in Redis lists (Trim, ReadBack)
--   Admin         admin.go: the actions on the jobs of a topic (Counts), and the way of a request to
--                 its action (Route)
--   Process       proc.go: StopProcess (Stop); shell_worker.go: the loop of a child (Worker)
--   Tests         the theorems at concrete inputs
--
-- Go strings are lists of byte values, maps are association lists, int64 wraps around by int64.
-- Times, generated ids and the answers of workers are arguments, as is ConsumerDisable at every
-- command that is served, topic by topic. A round of a loop is a function of
-- the store; goroutines interleave whole rounds only as far as Redis commands are atomic. One server
-- value stands for the servers of all storages: the lists of different topics have different names.
-- RetryQueue's loop runs on fuel; fuel beyond the length of the retry list is proved to suffice.
--
-- The callers of a connection pool are interleaved step by step, in runs of fewer than 2 ^ 62 steps,
-- which keeps its counters from wrapping. A reply is read on fuel; fuel above the number of unread
-- bytes is proved to suffice; a length that needs more than 2 ^ 48 bytes is one that make panics for.
-- A number is printed on fuel for 20 digits, which a uint64
-- never exceeds. The loop of HGETALLMAP runs on fuel; fuel beyond the number of fields
-- suffices, unless it never ends. The numbers of idgen are a function of the calls made so far.
--
-- Not modelled: start-up, metrics, logging, of the admin interface what prints or restarts, the PHP
-- libraries, and the libraries under codec/. The pool of the Go client is one connection, and the
-- library redeo on the gateway's side answers the commands of a connection in their order. The
-- system starts processes and waits for them.
mod Base
pub mod Redis
pub mod Job
pub mod Ids
pub mod Storage
pub mod Response
pub mod Mux
pub mod Config
pub mod MuxServer
pub mod Setting
pub mod Sdk
pub mod Gateway
pub mod HttpWorker
pub mod CgiPool
pub mod Stats
pub mod Records
pub mod Process
pub mod Admin
mod Tests
