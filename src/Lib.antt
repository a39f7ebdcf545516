-- ===== src/Lib.antt =====
-- TermBridge: SSH and local terminals for agents. This library models the sessions, their output,
-- the access rules in front of them, and the daemon's side of persistent sessions.
--
-- A session manager opens sessions under fresh ids, over hosts whose policies it looks up. Each
-- session has a terminal handle, a read task that writes its bytes into a ring buffer and records
-- them in a timeline, and an output engine; clients read the output by cursor in pages, as the
-- last lines, waiting for a pattern, or waiting for the output to settle, and may have terminal
-- control sequences stripped. Input, transfers and removals first pass a chain of command
-- policies; remote paths are checked against the account's SFTP channel in the scope of the host
-- before anything is touched. The daemon keeps sessions that clients attach to and detach from.
--
-- The files and the code:
-- * Ring.antt, `OutputRingBuffer` of src/domain/output.rs: `BufferInner` is the record behind the
--   mutex; `write`, `read_since`, `read_since_max` and `is_truncated` are the methods of these
--   names. Ring/History.antt says what a ring holds of the bytes ever written; Ring/Copy.antt and
--   Ring/Circle.antt are about the copying loops; Ring/Read.antt and Ring/Pages.antt about reads.
-- * Ansi.antt, src/domain/ansi_strip.rs: `strip_control_sequences`, `strip_page` and their helpers.
--   Ansi/Rest.antt, Ansi/Runs.antt, Ansi/Strings.antt and Ansi/Sequences.antt are about single
--   sequences, Ansi/Pages.antt and Ansi/Stream.antt about pages, Ansi/Text.antt about the text.
-- * Engine.antt, Engine/State.antt and Engine/Lines.antt, `OutputEngine` of src/domain/output.rs:
--   its state, `read_output` with the four modes, and the helpers on lines. Engine/Writes.antt,
--   Engine/Waiting.antt, Engine/Settling.antt, Engine/Steady.antt, Engine/Peeking.antt,
--   Engine/Paging.antt and Engine/Lines/Search.antt hold their theorems.
-- * PathPolicy.antt and PathPolicy/Lexical.antt, src/application/path_policy.rs: the checks of local
--   and remote paths. PathPolicy/Access.antt, PathPolicy/Safety.antt,
--   PathPolicy/Lexical/Remaining.antt and PathPolicy/Lexical/Clean.antt hold their theorems.
-- * Provider.antt, src/domain/provider.rs: the errors with their codes, the names of keys and
--   directions; Provider/Codes.antt is about these.
-- * Timeline.antt, src/domain/timeline.rs: the log of a session; Timeline/Window.antt is about it.
-- * Session.antt, src/domain/session.rs: the session and its operations, with the calls that they
--   make of the handle. Session/Gate.antt has them in sequence, Session/Steps.antt the steps of the
--   threads, Session/Tiles.antt the timeline against the output.
-- * HostPolicy.antt, src/application/host_policy.rs: the resolver of hosts.toml;
--   HostPolicy/Scope.antt joins it with the path policy.
-- * Sessions.antt, src/application/sessions.rs: the manager. Sessions/Reason.antt has the texts of
--   its refusals, Sessions/Files.antt the SFTP operations, Sessions/Opening.antt how sessions come
--   and go, Sessions/Reconnecting.antt the reconnection, Sessions/Reaper.antt the reaper,
--   Sessions/Environment.antt the detection of the remote environment and Sessions/Control.antt
--   the handler of the control socket. Sessions/Files/Operations.antt and
--   Sessions/Requests.antt have the operations as data. Sessions/Gate.antt,
--   Sessions/Files/Checked.antt, Sessions/Files/Tree.antt, Sessions/Fresh.antt,
--   Sessions/Keeping.antt, Sessions/Added.antt, Sessions/Ids.antt, Sessions/Prompting.antt and
--   Sessions/Reconnecting/Outcome.antt hold the theorems.
--   The policies and the configuration of a manager do not change; its sessions do, and an SFTP
--   operation takes those that it finds at the check of the remote path as an argument of its own.
-- * Transfer.antt, src/infrastructure/sftp.rs: the download of a directory; Transfer/Inside.antt is
--   about the places that it writes to.
-- * UpdateCheck.antt, src/infrastructure/update_check.rs: the comparison of versions and the throttle
--   of the check; UpdateCheck/Order.antt is about both.
-- * AgentSession.antt, agentd/src/session.rs: the sessions of the daemon; AgentSession/Life.antt and
--   AgentSession/Resume.antt are about one session over many calls.
-- * AgentBuffer.antt, agentd/src/buffer.rs: the daemon's ring, on the loops of Ring.antt;
--   AgentBuffer/Serving.antt holds its theorems.
-- * Policy.antt and Policy/Rules.antt, src/domain/policy.rs and src/application/policy.rs: the rules
--   of `DefaultPolicy` on input and on transfers, and the chain of `PolicyManager` with its approval
--   modes. Policy/Lines.antt has the `str` methods that these call; Policy/Chain.antt and
--   Policy/Input.antt hold the theorems.
-- * Prelude.antt, Text.antt, Utf8.antt, Decimal.antt, Table.antt and Traces.antt are shared: numbers,
--   lists, texts, the decoding of bytes, digits, tables keyed by text, and sequences of calls. A
--   text is the list of its code points. Examples.antt has the runs on concrete inputs.
--
-- Loops are structural, or run on fuel that is enough: the copying and reading loops of the ring
-- move at least one byte a round and get as many rounds as bytes, the loops of the stripping
-- consume at least one byte a round and get as many rounds as the input has bytes. A call that
-- waits runs against the list of the events that it meets, its deadline among them; `none` means that
-- it still waits behind them.
--
-- The recursions over remote trees run on the levels that their depth limit of 20 leaves.
--
-- `written` is a u64 and its sum wraps. What reads see of a ring is stated for fewer than 2 ^ 64
-- bytes. Indices into a buffer do not overflow a usize, since a vector has fewer than 2 ^ 63 bytes.
--
-- Parameters: the regex crate (Engine, Policy), the SFTP channel and the file system (PathPolicy,
-- Sessions/Files, Transfer), the replies of terminal handles and the clock (Session, Sessions), the
-- configuration of SSH, the providers of terminals and credentials (Sessions/Opening), the parser of
-- TOML (HostPolicy), the PTY and its writer (AgentSession).
-- Not modelled: the branch of the waiting loop for a dropped sender, which lives as long as the
-- ring; the environment variables of the path policy; the request of the update check to the
-- release service; log calls; most texts of errors, which are shortened or stand as their data; and
-- the providers, transports, command line and desktop parts, which are network, processes and JSON.
pub mod Prelude
pub mod Ring
pub mod Ansi
pub mod Engine
pub mod Text
pub mod PathPolicy
pub mod Examples
pub mod Policy
pub mod AgentBuffer
pub mod Provider
pub mod Utf8
pub mod Traces
pub mod Transfer
pub mod AgentSession
pub mod Decimal
pub mod Sessions
pub mod Table
pub mod HostPolicy
pub mod Session
pub mod Timeline
pub mod UpdateCheck
