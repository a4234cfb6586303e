-- ===== src/Lib.antt =====
-- The core of the taillight server: a syslog and application log viewer. Rows of the srvlog and
-- netlog feeds are stored by rsyslog, and the database tells their ids to the server, which fetches
-- each row, marks it with the mute rule that matches it, streams it to the SSE clients and hands it
-- to the notification engine unless it is muted. The engine matches it with the rules, and the
-- suppressor turns the matches of one rule and group into one alert and digests, which the engine
-- delivers to the channels with retries. Applications send their logs to the ingest endpoint, through
-- the log shipper for Go programs.
--
-- Base            numbers, Go strings as lists of bytes, association lists for maps, and what the code
--                 takes of strconv (Decimal, ParseInt), encoding/base64 (Base64) and unicode/utf8 (Utf8)
-- Model/Event     api/internal/model/srvlog.go, netlog.go, applog.go: the events
-- Model/Filter    the same files: SrvlogFilter.Matches and NetlogFilter.Matches (srvlog_matches,
--                 netlog_matches) and matchWildcard (match_wildcard); Model/Filter/Glob says what a
--                 pattern means
-- Model/Level     api/internal/model/applog.go: levels and AppLogFilter.Matches
-- Model/Unicode   Go's case tables and UTF-8 decoder, as a parameter, with an ASCII instance
-- Model/Cursor    api/internal/model/srvlog.go: Cursor.Encode and DecodeCursor
-- Model/Query     api/internal/model/filterparse.go, and the query parsers of the three feeds;
--                 Model/Query/Meaning says what a query means
-- Broker          api/internal/broker/broker.go: Subscribe, Unsubscribe, Shutdown, Broadcast
-- Mute            api/internal/mute/set.go; Mute/Validate is api/internal/mute/rule.go
-- Bridge          api/internal/ingestbridge/bridge.go: Dispatch
-- Stream          api/internal/handler/sse_stream.go: run (run_stream) and backfill
-- Notify/Types    api/internal/notification/notifier.go
-- Notify/Rule     api/internal/notification/rule.go, and Rule.Validate
-- Notify/Suppressor  api/internal/notification/suppressor.go: Record (record_match), the two flushes
--                 that timers call, Stop
-- Notify/Engine   api/internal/notification/engine.go: handleEvent, onFlush, the cache
-- Notify/Delivery api/internal/notification/engine.go and ratelimit.go: sendWithRetry, attemptSend,
--                 recordLog, the maps of breakers and limiters
-- Notify/Secrets  api/internal/notification/secrets.go: Redacted, WithSecretsFrom, HasRedactedSecret
-- Auth            api/internal/auth/middleware.go and login.go: SessionOrAPIKey, RequireScope,
--                 DenyWrites, and the logins
-- Shipper         pkg/logshipper/handler.go: Settings is Config with setDefaults, Entry what Handle makes
--                 of a record, Queue the loop with its batches, its retry and its drain, Handler the
--                 steps of Handle, Shutdown and the loop
-- Ingest          api/internal/handler/applog_ingest.go: Ingest; Ingest/Shipped puts the shipper before it
-- Listener        api/internal/postgres/listener.go: recv, reconnect, fillGap and the loop of Listen
-- Schedule        api/internal/scheduler/analysis.go and summary.go (isDue), api/internal/model/schedule.go
-- Tests           runs on small concrete inputs
--
-- Mutexes and channels. A method that runs under a mutex is one step, so an interleaving of
-- goroutines is a list of steps: of broadcasts and reads in Broker/Stream, of matches and expired
-- timers in Notify/Suppressor/Accounting, of these with late timers and Stop in
-- Notify/Suppressor/Stopping, of the steps of Handle, Shutdown and the loop in
-- Shipper/Handler. A channel is a list with its capacity. A panic, as by the close of a closed
-- channel, is `none`.
--
-- Numbers. Times are nanoseconds from the epoch and ids of rows are natural numbers; a
-- time.Duration and other signed integers are integers, with the 64-bit wrap-around written out
-- where the code adds or multiplies durations. Counters do not wrap.
--
-- Fuel. The decimal printer takes its number as fuel, which is enough since a division by ten makes
-- it smaller. The retry loop recurses on the delays that are left of the schedule, the drain on what
-- the channel holds, and reconnecting on the rounds that are given.
--
-- Not modelled: the database and its stores, the other HTTP handlers, the analysis and its worker,
-- the backends of the channels, and the frontend. The circuit breakers, token buckets, the JSON
-- marshaller, the backends and the context are parameters of Notify/Delivery; json.Marshal
-- is one of Broker too. The queries of a connection and its sink's answers are parameters of
-- Stream, the JSON encoder and decoder and the UTF-8 repair of Shipper and Ingest, the driver of
-- Listener, the JSON of Notify/Secrets, the time zones of Schedule, and the lookups, the directory, hashes and bcrypt of Auth.
pub mod Base
pub mod Model
pub mod Broker
pub mod Mute
pub mod Bridge
pub mod Stream
pub mod Notify
pub mod Auth
pub mod Shipper
pub mod Ingest
pub mod Listener
pub mod Schedule
pub mod Tests
