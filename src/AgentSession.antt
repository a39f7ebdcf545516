-- ===== src/AgentSession.antt =====
-- agentd/src/session.rs: the daemon's sessions. The PTY and its writer are parameters: their
-- replies, and what the reads of the master file descriptor return. Times are arguments.
pub mod Life
pub mod Resume
use term_bridge.Prelude.{
  ℕ, zero, suc, ◌+◌, ◌%◌, Bool, true, false, Option, none, some, List, [], ◌∷◌, ◌++◌, map,
  if◌then◌else◌,
}
use term_bridge.Text.{Text, codes}
use term_bridge.Table.{lookup, insert, remove}
use term_bridge.Ring.{BufferInner, u64}
use term_bridge.Provider.{PtySize, ControlKey, key_bytes}
use term_bridge.AgentBuffer.{ReadSinceResult, new, write, read_since}

pub data SessionState : Type 0 where
  created attached detached lost : SessionState

unfoldable pub as_str : SessionState → Text
as_str created = codes "created"
as_str attached = codes "attached"
as_str detached = codes "detached"
as_str lost = codes "lost"

pub data SessionError : Type 0 where
  not_found is_lost pty_error : Text → SessionError
  invalid_state : (expected actual : Text) → SessionError

pub data Result (A : Type 0) : Type 0 where
  ok : A → Result A
  err : SessionError → Result A

pub data TerminalInfo : Type 0 where
  exited : ℕ → TerminalInfo
  exited_unknown : TerminalInfo
  lost_because : Text → TerminalInfo

-- `notified` is the permit that `notify_one` leaves for the event pump.
pub record Session : Type 0 where
  pub id : Text
  pub name : Option Text
  pub state : SessionState
  pub buffer : BufferInner
  pub created_at : ℕ
  pub last_activity_at : ℕ
  pub pty_size : PtySize
  pub notified : Bool
  pub terminal : Option TerminalInfo
  pub pump_epoch : ℕ

abbrev pub Sessions : Type 0
Sessions = List (Text × Session)

abbrev pub notify_pump : Session → Session
notify_pump s = record s { notified = true }

pub record SessionInfo : Type 0 where
  pub id : Text
  pub name : Option Text
  pub state : Text
  pub created_at : ℕ
  pub last_activity_at : ℕ
  pub pty_size : PtySize
  pub written : ℕ

unfoldable pub to_info : Session → SessionInfo
to_info s = record {
  id = s.id;
  name = s.name;
  state = as_str s.state;
  created_at = s.created_at;
  last_activity_at = s.last_activity_at;
  pty_size = s.pty_size;
  written = s.buffer.written;
}

-- The session of `create` once the PTY and its writer are there.
unfoldable pub new_session : Text → Option Text → PtySize → ℕ → Session
unfolding new
new_session id name pty_size now = record {
  id = id;
  name = name;
  state = created;
  buffer = new 0;
  created_at = now;
  last_activity_at = now;
  pty_size = pty_size;
  notified = false;
  terminal = none;
  pump_epoch = 0;
}

-- `spawned` is the reply of the PTY and of the writer; `id` is generated.
unfoldable pub create :
    Sessions → Result Unit → Text → Option Text → PtySize → ℕ → Sessions × Result Text
unfolding new_session
create sessions (err e) id name pty_size now = (sessions, err e)
create sessions (ok _) id name pty_size now =
    (insert id (new_session id name pty_size now) sessions, ok id)

abbrev or_not_found : Text → Option Session → Result Session
or_not_found id none = err (not_found id)
or_not_found id (some session) = ok session

unfoldable pub get : Sessions → Text → Result Session
get sessions id = or_not_found id (lookup id sessions)

-- An operation stands below on the session that `get` finds for its id.
unfoldable pub with_session :
    {A : Type 0} → Sessions → Text → (Session → Session × Result A) → Sessions × Result A
unfolding get
with_session sessions id operate = elim (get sessions id) [
  | err e ↦ (sessions, err e)
  | ok s ↦ (insert id (operate s).0 sessions, (operate s).1)
]

unfoldable pub ensure_alive : Session → Result Unit
ensure_alive s = elim s.state [
  | lost ↦ err (is_lost s.id)
  | created ↦ ok tt
  | attached ↦ ok tt
  | detached ↦ ok tt
]

abbrev attach_now : Session → ℕ → Session × Result ReadSinceResult
attach_now s since =
    let s' = record s { state = attached; pump_epoch = (s.pump_epoch + 1) % u64 } in
    (s', ok (read_since s'.buffer since))

abbrev attach_in : SessionState → Session → ℕ → Session × Result ReadSinceResult
attach_in lost s since = (s, err (is_lost s.id))
attach_in attached s since =
    (s, err (invalid_state (codes "created or detached") (codes "attached")))
attach_in created s since = attach_now s since
attach_in detached s since = attach_now s since

unfoldable pub attach : Session → ℕ → Session × Result ReadSinceResult
attach s since = attach_in s.state s since

abbrev detach_in : SessionState → Session → Session × Result Unit
detach_in attached s = (notify_pump (record s { state = detached }), ok tt)
detach_in lost s = (s, err (is_lost s.id))
detach_in created s = (s, err (invalid_state (codes "attached") (as_str created)))
detach_in detached s = (s, err (invalid_state (codes "attached") (as_str detached)))

unfoldable pub detach : Session → Session × Result Unit
detach s = detach_in s.state s

-- `reply` is that of the writer's queue.
unfoldable pub send_input : Session → List ℕ → Result Unit → ℕ → Session × Result Unit
unfolding ensure_alive
send_input s data_in reply now = elim (ensure_alive s) [
  | err e ↦ (s, err e)
  | ok _ ↦ elim reply [ err e ↦ (s, err e) | ok _ ↦ (record s { last_activity_at = now }, ok tt) ]
]

unfoldable pub send_control : Session → ControlKey → Result Unit → ℕ → Session × Result Unit
unfolding send_input
send_control s control reply now = send_input s (key_bytes control) reply now

unfoldable pub resize : Session → ℕ → ℕ → Result Unit → Session × Result Unit
unfolding ensure_alive
resize s rows cols reply = elim (ensure_alive s) [
  | err e ↦ (s, err e)
  | ok _ ↦ elim reply [
    | err e ↦ (s, err e)
    | ok _ ↦ (record s { pty_size = record { rows = rows; cols = cols } }, ok tt)
  ]
]

unfoldable pub read_output : Sessions → Text → ℕ → Result ReadSinceResult
unfolding get
read_output sessions id since = elim (get sessions id) [
  | err e ↦ err e
  | ok s ↦ ok (read_since s.buffer since)
]

-- The new sessions, the session that was taken out (its child killed, its pump woken), or an error.
unfoldable pub close : Sessions → Text → Sessions × Result Session
close sessions id = elim (lookup id sessions) [
  | none ↦ (sessions, err (not_found id))
  | some s ↦ (remove id sessions, ok (notify_pump s))
]

abbrev close_all : List Text → Sessions → Sessions
close_all [] sessions = sessions
close_all (id ∷ ids) sessions = close_all ids (close sessions id).0

unfoldable pub list : Sessions → List SessionInfo
list sessions = map (λ row. to_info (row.1)) sessions

unfoldable pub shutdown : Sessions → Sessions
shutdown sessions = close_all (map (λ row. row.1.id) sessions) sessions

-- What a read of the master returns; no bytes are the end of the data.
pub data PtyRead : Type 0 where
  bytes : List ℕ → PtyRead
  would_block eio : PtyRead
  other_error : Text → PtyRead

abbrev pub reap_attempts : ℕ
reap_attempts = 100

-- The replies of `try_reap`, by the number of the attempt; `left` attempts are left.
unfoldable pub reap_exit_code : (ℕ → Option ℕ) → ℕ → ℕ → Option ℕ
reap_exit_code try_reap zero attempt = none
reap_exit_code try_reap (suc left) attempt =
    let later = reap_exit_code try_reap left (attempt + 1) in
    elim (try_reap attempt) [ some code ↦ some code | none ↦ later ]

unfoldable pub reap_exit_code_bounded : (ℕ → Option ℕ) → Option ℕ
unfolding reap_exit_code
reap_exit_code_bounded try_reap = reap_exit_code try_reap reap_attempts 0

abbrev exit_info : Option ℕ → TerminalInfo
exit_info none = exited_unknown
exit_info (some code) = exited code

-- First the terminal information, then the state.
unfoldable pub finish_lost : Session → (ℕ → Option ℕ) → Session
unfolding reap_exit_code_bounded
finish_lost s try_reap =
    let told = record s { terminal = some (exit_info (reap_exit_code_bounded try_reap)) } in
    notify_pump (record told { state = lost })

-- One read of `pty_read_loop`: the session, and whether the loop goes on.
unfoldable pub read_turn : Session → (ℕ → Option ℕ) → PtyRead → ℕ → Session × Bool
unfolding finish_lost
read_turn s try_reap would_block now = (s, true)
read_turn s try_reap eio now = (finish_lost s try_reap, false)
read_turn s try_reap (other_error e) now =
    (notify_pump (record s { terminal = some (lost_because e); state = lost }), false)
read_turn s try_reap (bytes []) now = (finish_lost s try_reap, false)
read_turn s try_reap (bytes (b ∷ bs)) now =
    (notify_pump (record s { buffer = write s.buffer (b ∷ bs); last_activity_at = now }), true)

-- The loop over the reads, each with its time.
unfoldable pub pty_read_loop : Session → (ℕ → Option ℕ) → List (PtyRead × ℕ) → Session × Bool
unfolding read_turn
pty_read_loop s try_reap [] = (s, true)
pty_read_loop s try_reap ((r, now) ∷ reads) =
    let turn = read_turn s try_reap r now in
    let rest = pty_read_loop turn.0 try_reap reads in if turn.1 then rest else turn
