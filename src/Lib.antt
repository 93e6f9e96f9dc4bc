-- ===== src/Lib.antt =====
-- llama-swap (Go): a proxy that starts, swaps and stops upstream model servers on demand.
--
-- A request for a model goes to the proxy manager, which finds the group of the model, stops the
-- other groups if that group is exclusive, and hands the request to the group. A group in swap mode
-- stops the process it used before. A process starts its command on demand, checks its health
-- endpoint, takes a place of its semaphore for the request, and is stopped by a swap, a TTL or a
-- shutdown. The configuration decides which models, groups, ports and peers there are; the log
-- monitors keep the last output, the metrics monitor what the requests cost; the event dispatcher
-- tells the rest of the program. A new configuration is applied while processes run.
--
-- Where what is modelled:
--   Base        shared types and lemmas: texts as lists of bytes, Go's maps as association lists,
--               sorting, decimal numbers.
--   LogMonitor  proxy/logMonitor.go. `circularBuffer` is CircularBuffer (`Write` write,
--               `GetHistory` get_history), `LogMonitor` is LogMonitor (`Write` write_log,
--               `GetHistory` log_history, `Clear` clear, `log` log, and the setters). Contract
--               states what a monitor promises and that the operations keep it.
--   Process     proxy/process.go. `Process` is Process; `swapState`, `isValidTransition` and
--               `forceState` are in State, `start` in Start with its ready check loop in Health,
--               `Stop`, `StopImmediately`, `Shutdown`, `stopCommand` and `waitForCmd` in Stop,
--               `ProxyRequest` and the TTL tick in Request. Walks has the diagram of the states.
--   Config      proxy/config: what `LoadConfigFromReader` does after the YAML decoder (Load), by
--               parts: Names (aliases), Macros, Env, Command, Models (the loop over the models),
--               Groups, Filters.
--   Group       proxy/processgroup.go, `ProcessGroup` and its methods (State).
--   Manager     proxy/proxymanager.go (Groups: the exclusive swap and the stops; Access: API keys and
--               origins; Routes: the model in a path, `resolveModelTarget`, and two handlers up to
--               the call of the handler they choose; Bodies and Inference: `proxyInferenceHandler`,
--               the JSON body it rewrites and the answers it gives; Forms:
--               `proxyOAIPostFormHandler`), proxy/peerproxy.go (Peers),
--               proxy/sanitize_cors.go (Cors) and proxy/rate_limiter.go (RateLimit).
--   Sync        proxy/config_runtime_sync.go (Runtime: `syncExistingGroupRuntime` and
--               `applyConfigAndSyncProcessGroups`) and the save of proxy/config_editor_api.go
--               (Editor).
--   Metrics     proxy/metrics_monitor.go: the metrics and the captures (Captures), the parsing of a
--               response (Parse), the headers (Headers) and `wrapHandler` (Handler).
--   Benchy      proxy/benchy.go: the jobs and their pruning (Jobs), the checks of a request (Start,
--               Handler), the runs (Queue) and the arguments of the command (Args).
--   Event       event/event.go: the registry (Registry), the consumer groups (Queue), and the sleep
--               and the wakeups of their goroutines (Wakeups).
--   Tests       runs on concrete inputs.
--
-- Goroutines. A method that mutates an object returns the new one. A lock makes what stands under it
-- one step. Where a method waits, what other goroutines do meanwhile is an argument: a list of steps
-- (`Act`) on the same process: swaps of the state, the parts of other requests, the exit of the
-- command, the launch of a start, a shutdown. A theorem says which of them it allows; those on a calm
-- process take none. A method that can wait for ever says so by `none`. In `waitForCmd` the change of
-- state and the closing of the channel are one step. Calls on a group are taken one after the other:
-- the locks of swap mode make requests so, and StopProcess, which takes none of them, is taken
-- between two requests too. The goroutines of a consumer group take turns in
-- any order (`Step`); a step that has to wait leaves the group as it is. In Wakeups the
-- goroutines also sleep and are woken by the condition variable.
--
-- Bounds and fuel. Numbers are natural numbers where the code's `int`s do not fall below zero, and
-- integers (Base/Integer) in the options and the metrics that a client may make negative. The
-- ready check loop has fuel for its rounds; each round waits at least the first delay, so that the
-- time allowed over that delay, plus one, is enough, which is proved. The binary search has a round
-- for each key. Times are in milliseconds, in the rate limiter in any unit.
--
-- Not modelled: what other programs and libraries do is a parameter: the operating system's answers
-- to a start, `url.Parse`, `os.LookupEnv`, shlex, base64, `rate.Limiter`, gjson, sjson, multipart,
-- gzip, the YAML decoder, clocks and writers. Texts are ASCII. The lines that handlers log and the
-- texts of their error answers are left out, the status codes kept. The loading messages streamed to
-- a client, the user interface, recipe, cluster and docker handlers are not modelled; the last three
-- hold much text of shell scripts and calls of other programs.
pub mod Base
pub mod LogMonitor
pub mod Process
pub mod Config
pub mod Group
pub mod Manager
pub mod Sync
pub mod Metrics
pub mod Benchy
pub mod Event
mod Tests
