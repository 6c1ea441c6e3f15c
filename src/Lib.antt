-- ===== src/Lib.antt =====
-- webot-msg
-- =========
--
-- webot-msg lets programs on a machine send WeChat messages through a bot. The remote service accepts
-- only some messages of a bot before its user has to write again, and only for a time, so every send
-- passes a guard: it counts the messages of a conversation in Redis, locks the bot before the limit,
-- sends a reminder, and queues the messages that come in meanwhile. This library models that guard and
-- the sender above it, the loop that sends the queue, the HTTP interface, the console, the stores of
-- bots and of switches, the audit, the log file and the settings.
--
-- The parts, and how they interact
-- --------------------------------
-- Common        names shared by all modules; integers, texts (lists of code points), results.
-- Strconv       Go's strconv.Itoa and Atoi on 64-bit integers, as far as the program uses them.
-- Redis         what the program uses of a Redis database, as a record of operations and laws: hashes,
--               lists, keys that expire. Redis/Memory fills it with a database in memory.
-- Protection    internal/protection.
--   Guard         guard.go: decisions, reservations, rejections, the interface of a guard.
--   Scripts       the Lua scripts of redis_guard.go and queue.go, each one step on the database.
--   Replies       what the Go code reads out of the replies of the scripts.
--   Keys          the names of a bot's keys.
--   RedisGuard    the methods of RedisGuard, over a server: a database, the fate of each command to
--                 come (answered, lost on the way there or back, or carried out and tried again by the
--                 client, which may repeat a command that it got no answer to) and a clock.
--   Policy        the abstract specification: a bot is a lock, a count, a window and a queue.
--   Refine        the scripts do to a database that represents a bot what the policy does to the bot.
--   History       sequences of calls, with faults and with the passing of time.
--   RuntimeGuard  runtime_guard.go: generations with reference counts. Pointers are addresses.
-- Config        internal/config/store.go: the bots that are logged in. Store holds the methods over the
--               map and the file; Bots and Tokens what they do to the bots.
-- Sender        internal/sender: Footer is status_footer.go, ProtectedText is protected_text.go. World
--               fills its services with the Redis guard and a list of messages that arrived.
-- Control       internal/control: Splitter is output_splitter.go.
-- App           internal/app: SendQueue and Drainers are send_queue.go, the loop that sends the messages
--               of a queue and the table of the loops; Updates is what a poll
--               does to its bot, and the check of the time window, of app.go; Switches is the switch of the
--               protection with its restore at the start; Commands chooses and deletes bots by number
--               and sends by hand.
-- Console       internal/console: the commands and the completion of a line; Session is console.go.
-- Api           internal/api/server.go: what a request for a bot is answered, and with what effect.
-- Persist       internal/protection/state_store.go and internal/audit/state_store.go, which are the
--               same but for names: Protection/StateStore and Audit/StateStore are what each adds.
-- Logfile       internal/logfile/writer.go.
-- Audit         internal/audit/audit.go: the recorder; Recording says where its records go.
-- RuntimeConfig internal/runtimeconfig/config.go: the settings. Resolve checks and completes them, Sizes
--               is ParseSize, Storage prepares the directories and copies an old file of bots.
-- CommandLine   cmd/webot-msg/main.go: the settings on their way to the guard and the audit.
-- Tests         runs on concrete inputs.
--
-- A Go method that returns a value and an error is a function into a Result with the new state; one
-- that returns a value along with an error returns both. Errors keep the structure that errors.As
-- reads; their texts leave out quoted values. A state that several goroutines share is passed from
-- step to step; what one lock, or one Redis script, does at once is one step, and a history is any
-- order of steps. A stop of a loop is two steps, as the loop is cancelled after the lock is released;
-- in Commands and Switches, which run by themselves, nothing comes between the two. The attempts of a
-- command that the client repeats follow each other at one time of the clock.
--
-- Bounds
-- ------
-- A Go int or Duration is an integer that wraps at 64 bits where the code does arithmetic on it
-- (int64). The numbers of a Redis script are doubles: the scripts are taken to be exact up to 2 ^ 53,
-- and the theorems ask for counts and queues below that. The loop that drains a queue has
-- fuel, of which more than the length of the queue is enough. The rounds of the decimal print and of
-- the common prefix of a completion are bounded by the number and by the length of the first word.
--
-- Not modelled
-- ------------
-- Logging, contexts and their time-outs (a command that is cut off is one that was lost), the network
-- client of the remote service, JSON (a codec that reads back what it wrote, or a parameter), URLs,
-- paths and durations of Go's library (parameters), the making of Redis clients, the terminal, the
-- control socket, telemetry and the set-up of the process. The login, the commands on the audit, what
-- the commands print and the monitors of internal/app/app.go are not part of it either, nor is the
-- reading of the files of bots and of settings. Audit records go to clients that are numbers, not to a
-- Redis of the library.
pub mod Common
pub mod Strconv
pub mod Redis
pub mod Protection
pub mod Config
pub mod Sender
pub mod Control
pub mod App
pub mod RuntimeConfig
pub mod Api
pub mod Logfile
pub mod Persist
pub mod Audit
pub mod Console
pub mod CommandLine
mod Tests
