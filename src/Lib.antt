-- ===== src/Lib.antt =====
-- A model of the core of acpp, a server that runs coding agents over the agent client protocol
-- and shows their conversations on the web, on Discord and on the command line.
--
-- The parts, and how they meet in the program. A conversation's agent may run on another
-- machine; its streams then cross a connection that may break, and each end keeps what the
-- other may still need (remote/). The messages to and from an agent are JSON-RPC over its
-- standard streams (acp/). What an agent says comes in fragments; buffers turn it into lines,
-- code blocks and tables for a channel (acp/helpers/). The store keeps the sessions, their log
-- and their projects (db/). The router holds the live conversations: it starts, restarts and
-- closes them, passes messages between the agents and the subscribers, through hooks
-- (router/). One subscriber, the persister, writes what happens to the store (persistence/);
-- another, the scheduler, starts conversations from a timetable (router/scheduler.go). Rules
-- of the configuration answer when an agent wants to use a tool (config/), and a filter keeps
-- the server's secrets out of a sandbox (sandbox/). The arena lets several agents do one task
-- and judge each other blindly (arena/).
--
-- Prelude: tests, lists, results, 64-bit words and texts. A text is its list of bytes.
-- Remote.Outbox and Remote.Inbuf: remote/buffer.go, `outbox` and `inbuf`, each method a
-- function to the new state and the result, offsets as uint64 with their wrap-around.
-- Remote.Link: one direction of one stream between two ends, after remote/conn.go,
-- remote/agent.go and remote/hub.go: an event is a write, a send, a delivery, a read, an
-- acknowledgement or a reconnect, and a history is a list of events.
-- Remote.Wire: the data frames of remote/wire.go.
-- Helpers.LineBuffer and Helpers.BlockBuffer: acp/helpers/line_buffer.go and block_buffer.go.
-- The output callback is a parameter with a state of its own. The loop over the lines runs
-- on fuel, one more than the bytes in the buffer, and each round takes at least a newline
-- away. A timer is two flags, and its firing is a call. What a screen does with an update is
-- Helpers.LineBuffer.Screen.
-- Db.MemStore: db/memstore.go, with the rows of db/store.go. Sessions, Logs, Projects, Listing
-- and Stats hold the operations. Db.Map is a Go map as an association list, whose order is
-- the order of a range, but the list of sessions takes the order of each call's range as an
-- argument; Db.Order is sort.Slice as an insertion sort. The clock is an
-- argument, and the cost, a float64, is any type. An int64 that is added to is kept as its
-- 64 bits.
-- Types: the records of types/ that the components hand to one another.
-- Persistence: persistence/persister.go over Db.MemStore; Persistence.Meta is what it reads
-- from a message's `_meta`. A float64 is a type with the operations that the code uses.
-- Router.Conversations: router/router.go and router/adopt.go. A pointer to a SessionState is a
-- place in a list that only grows, the map of sessions leads from conversation ids to
-- places, and a trace keeps in order what subscribers, agents, processes and hooks get. The
-- hooks' answers and the success of each send are parameters. Messages holds dispatch,
-- deliver and onMessage, Lifecycle what starts and ends conversations, Run any sequence of
-- calls. Restart is two calls, since messages come while it waits, and the second has what
-- the wait found and how it ended; a channel is a number.
-- Router.Scheduler: router/scheduler.go. What the scheduler calls answers from a record,
-- `World`; Upsert runs on the in-memory store.
-- Acp.Connection and Acp.Client: acp/connection.go and acp/client.go, with the errors of
-- acp/errors.go. The JSON codec, the writer, the trimming of a line and the text of a number
-- are one record of parameters, `Wire`. The calls of the handler are kept in order. An
-- operation is one step; what a handler sends stands in a history after its call.
-- Arena: Scores is arena/scores.go and Plan the checks of arena/plan.go; the JSON decoder is a
-- parameter. Meta is arena/meta.go, with the array that a slice may leave. Report is
-- arena/report.go; the text of a number is a parameter.
-- Helpers.Table: acp/helpers/table.go, a table read, printed, and as the fields of an embed.
-- Config: the tool permissions of config/config.go, where lowering a text is a parameter, and
-- Config.Hooks: config/hooklist.go, where trimming a text is one.
-- Sandbox: sandbox/env.go, the filter of the environment. Trimming a text is a parameter.
-- Permission: the decision of permission/allow_all.go.
-- Tests: the theorems at concrete inputs.
--
-- A mutex makes a method one step; rewind of the outbox, which takes it three times, is one step
-- since its callers make one resume at a time. Where a component waits, the wait is a result or
-- an event.
--
-- Not modelled: the other statistics of the store and its PostgreSQL form, how the router
-- resolves a project, sets up hooks and builds a sandbox before an agent starts, the slash
-- commands, the control messages between server and remote agents, the types of the protocol's
-- messages, the web and Discord channels, the command line of a sandbox, hooks, processes, the
-- runs of the arena, the command line and the clients. Most of these are calls of the operating
-- system or of libraries.
pub mod Helpers
pub mod Prelude
pub mod Remote
pub mod Tests
pub mod Db
pub mod Router
pub mod Acp
pub mod Arena
pub mod Permission
pub mod Types
pub mod Persistence
pub mod Config
pub mod Sandbox
