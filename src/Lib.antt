-- ===== src/Lib.antt =====
-- Verification of DSH Orbit, a Hub and its Nodes: the Hub keeps a registry of machines and routes
-- browsers to them. Paths are from the repository's root.
--
-- Common holds shared names: texts as lists of code units with the string methods that the code calls,
-- and JavaScript maps and sets as lists in insertion order.
-- Pairing models src/registry/pairing-code.mjs (PairingCodeEngine): Engine is the state of the object;
-- generate_code, check_ip_lockout, verify_code and record_failure are generateCode, checkIpLockout,
-- verifyCode and recordFailure. One call reads one value of the clock; the random draws and the answer
-- of the URL constructor are arguments; events to listeners are left out.
-- Flows models src/registry/flow-tracker.mjs: validate_target_scope and validate_scoped_action are the
-- checks of targets, Tracker is MultiNodeFlowTracker, whose operations carry their names. The messages
-- of errors are left out, their kinds are kept. to_lower is exact on ASCII, which suffices for the
-- words that are compared.
-- Fleet models src/registry/fleet-scheduler.mjs: Target is validateFleetTargetSpec, Payload the checks of
-- payloads, Scrub scrubSensitiveCredentials, Submit submitJob and hasActiveJobForSchedule, Dispatch
-- dispatchWithTimeout and defaultDispatch. In Execute, executeJob is begin_execution, then steps that
-- come in any order (a worker claims a node or leaves, a dispatch settles), then finish_job; cancelJob
-- can come between any two of them. A worker that has settled a dispatch looks at the queue again.
-- The transport and the node registry are arguments.
-- Schedule models src/registry/schedule-engine.mjs: Create is createSchedule and validateTarget, Dispatch
-- dispatchScheduleRun, Loops evaluateDueSchedules, reconcileOnStartup and the other operations. It submits
-- to the scheduler of Fleet. The patterns of scrubString are an argument, and so is the parser of cron
-- expressions, the record Helpers, which Cron fills: parseCronField, parseCronExpression and
-- getNextCronOccurrence of src/registry/schedule-parser.mjs, over the UTC calendar of Calendar, with
-- Number as an argument; Ranges and Meaning of Cron say what a field names without the terms of the parser.
-- calculateNextRunAt and getNextIntervalOccurrence are in Schedule itself. Overlap has the orders of dispatches
-- and of what happens to their jobs; Tagged, JobRuns, Calmer and Exclusive are its lemmas.
-- Reverse models src/registry/reverse-session.mjs: Sessions are the classes ReverseSession (messages, frames,
-- timers, promote, close) and ReverseSessionManager (registerUpgrade), Queries the other operations of the
-- manager, Events any order of them. Sockets, the frames that are sent and the listeners are left out.
-- Route models src/registry/route-auth.mjs (Auth: signRouteRequest and verifyRouteRequest, with
-- RouteNonceCache) and src/registry/hub-route-keys.mjs (Keys); node:crypto is an argument. The time of a check
-- and the clock of the cache are two arguments. Sound says by itself what a good request is.
-- Wire models src/registry/reverse-ws.mjs: encode_frame is encodeFrame, and Parse the parser that
-- createFrameParser makes, feed one call of it; the callbacks are told events. Utf8 is toString of a Buffer.
-- Channels models src/registry/reverse-channel.mjs: Body is the class Flow as executeReverseHttp uses it, with
-- what a call does to sockets, promises and the channel as a list of effects (Steps, Delivery and Budget are
-- about any order of calls); Pool is ReverseChannelManager, and apply any of its operations. Pressure
-- is checkD7 for one direction of a flow of WebSockets, called by its timer; their pumps, and the messages of
-- nodes but `idle`, are left out.
-- Backoff models src/node/backoff.mjs; a random number is a multiple of 2 ^ -53, and the jitter is computed
-- exactly, without the rounding of floating-point numbers.
-- The parser of Wire runs on fuel, as much as there are bytes, of which a round takes two or more
-- (run_enough). The search of Cron runs on more minutes than its window of years has, and goes on by a minute
-- or more in a round (search-Least); a range of Cron on more rounds than it has numbers (add_steps-↔). Every
-- other loop is over a list. The concurrency of jobs and the cap of 50 due
-- schedules are those of the source.
-- Not modelled: the node registry and its database, HTTP and the proxy of routes, the machine protocol,
-- the client on the nodes, the plugin, the tools for upgrades and the user
-- interface. Patches, scripts and containers are glue.
pub mod Common
pub mod Pairing
pub mod Flows
pub mod Fleet
pub mod Schedule
pub mod Reverse
pub mod Backoff
pub mod Route
pub mod Wire
pub mod Channels
