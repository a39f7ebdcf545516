-- ===== src/Session.antt =====
-- src/domain/session.rs: a session with its output, its read task and its terminal handle. The
-- handle is foreign to the session: an operation lists the calls that it makes of it and takes
-- the reply as an argument, and so it takes the time. Log calls are left out.
pub mod Gate
pub mod Tiles
pub mod Steps
use term_bridge.Prelude.{
  ℕ, ◌-◌, Bool, true, false, not, Option, none, some, List, [], ◌∷◌, length, leb, if◌then◌else◌,
}
use term_bridge.Text.{Text, codes}
use term_bridge.Provider.{PtySize, ControlKey, key_name, TermError, session_closed, Result, ok, err}
use term_bridge.Policy.{ApprovalMode, standard}
use term_bridge.Timeline.{
  Timeline, new_timeline, record_command, record_output, record_control, record_state_change,
}
use term_bridge.Ring.{write, default_buffer_size}
use term_bridge.Engine.{OutputEngine, ReadOutputParams, ReadOutputResult, Surroundings, new_engine}
use term_bridge.Engine
use term_bridge.Engine.Lines.{Match}

pub data SessionState : Type 0 where
  creating ready closing closed lost : SessionState

abbrev pub is_closed : SessionState → Bool
is_closed creating = false
is_closed ready = false
is_closed closing = false
is_closed closed = true
is_closed lost = false

unfoldable pub is_detached : SessionState → Bool
is_detached creating = false
is_detached ready = false
is_detached closing = false
is_detached closed = true
is_detached lost = true

abbrev pub is_usable : SessionState → Bool
is_usable creating = false
is_usable ready = true
is_usable closing = false
is_usable closed = false
is_usable lost = false

-- The derived `Debug`, in lower case.
abbrev pub state_name : SessionState → Text
state_name creating = codes "creating"
state_name ready = codes "ready"
state_name closing = codes "closing"
state_name closed = codes "closed"
state_name lost = codes "lost"

-- The type behind `dyn TerminalHandle`, as far as a downcast tells it.
pub data HandleKind : Type 0 where
  ssh_handle persistent_handle other_handle : HandleKind

pub data HandleCall : Type 0 where
  handle_write : List ℕ → HandleCall
  handle_send_control : ControlKey → HandleCall
  handle_resize : PtySize → HandleCall
  handle_close : HandleCall

-- The task behind a `JoinHandle`; taking the handle out of its option aborts the task.
pub data ReadTask : Type 0 where
  running finished : ReadTask

pub record Session : Type 0 where
  pub id : Text
  pub host : Text
  pub state : SessionState
  pub pty_size : PtySize
  pub output : OutputEngine
  pub handle : HandleKind
  pub read_task : Option ReadTask
  pub last_activity : ℕ
  pub timeline : Timeline
  pub created_at : ℕ
  pub approval_mode : ApprovalMode

-- An operation's new session, its calls of the handle in order, and what it returns.
pub record Done : Type 0 where
  pub session : Session
  pub calls : List HandleCall
  pub result : Result Unit

-- `now_secs` and `now_millis` at one time.
pub record Clock : Type 0 where
  pub secs : ℕ
  pub millis : ℕ

-- `Session::new`
unfoldable pub new_session : Clock → Text → Text → PtySize → HandleKind → Session
unfolding new_engine new_timeline record_state_change
new_session now id host pty_size handle = record {
  id = id;
  host = host;
  state = ready;
  pty_size = pty_size;
  output = new_engine default_buffer_size;
  handle = handle;
  read_task = some running;
  last_activity = now.secs;
  timeline = record_state_change new_timeline now.millis (codes "creating") (codes "ready");
  created_at = now.millis;
  approval_mode = standard;
}

abbrev pub with_state : Session → SessionState → Session
with_state s state = record s { state = state }

abbrev pub with_timeline : Session → Timeline → Session
with_timeline s timeline = record s { timeline = timeline }

-- A turn of the read task's loop that got data: the write, and the record of it.
abbrev pub write_chunk : Session → List ℕ → Session
write_chunk s data_in = record s {
  output = record (s.output) { buffer = write s.output.buffer data_in };
}

unfoldable pub read_turn : Session → Clock → List ℕ → Session
unfolding record_output
read_turn s now data_in =
    let cursor_start = s.output.buffer.written in
    let s' = write_chunk s data_in in
    with_timeline s'
      (record_output s'.timeline now.millis cursor_start s'.output.buffer.written (length data_in))

-- The end of the read task, at the end of the data or on an error.
unfoldable pub read_exit : Session → Session
read_exit s = record s {
  state = if is_usable s.state then lost else s.state;
  read_task = some finished;
}

unfoldable pub set_approval_mode : Session → ApprovalMode → Session
set_approval_mode s mode = record s { approval_mode = mode }

unfoldable pub is_idle : Session → Clock → ℕ → Bool
is_idle s now threshold_secs = leb threshold_secs (now.secs - s.last_activity)

abbrev pub touch_last_activity : Session → Clock → Session
touch_last_activity s now = record s { last_activity = now.secs }

unfoldable pub abort_read_task : Session → Session
abort_read_task s = record s { read_task = none }

abbrev pub refused : Session → Done
refused s = record { session = s; calls = []; result = err (session_closed s.id) }

module _ {R : Type 0} (compile : List ℕ → Option R) (find : R → List ℕ → Option Match) where
  -- The chunks that come in while the call waits are those of its surroundings.
  unfoldable pub read_output :
      Session → Clock → ReadOutputParams → Surroundings → Option (Session × Result ReadOutputResult)
  read_output s now params surroundings =
      if is_closed s.state
      then some (s, err (session_closed s.id))
      else elim (Engine.read_output compile find s.output params surroundings) [
        | none ↦ none
        | some (e, r) ↦ some (record (touch_last_activity s now) { output = e }, ok r)
      ]

unfoldable pub send_input : Session → Clock → List ℕ → Result Unit → Done
unfolding record_command
send_input s now data_in reply =
    let s' = touch_last_activity s now in
    let recorded = record_command s'.timeline now.millis data_in s'.output.buffer.written in
    if not (is_usable s.state) then refused s else record {
      session = with_timeline s' (recorded.0);
      calls = handle_write data_in ∷ [];
      result = reply;
    }

unfoldable pub send_control : Session → Clock → ControlKey → Result Unit → Done
unfolding record_control
send_control s now key reply =
    let s' = touch_last_activity s now in
    if not (is_usable s.state) then refused s else record {
      session = with_timeline s' (record_control s'.timeline now.millis (key_name key));
      calls = handle_send_control key ∷ [];
      result = reply;
    }

unfoldable pub resize : Session → PtySize → Result Unit → Done
resize s size reply =
    if not (is_usable s.state)
    then refused s
    else record { session = s; calls = handle_resize size ∷ []; result = reply }

-- `close` up to the call of the handle, and behind it.
unfoldable pub begin_close : Session → Clock → Session
unfolding record_state_change
begin_close s now = abort_read_task (
    with_state
      (with_timeline s
        (record_state_change s.timeline now.millis (state_name s.state) (codes "closing")))
      closing)

unfoldable pub end_close : Session → Clock → Session
unfolding record_state_change
end_close s now =
    with_timeline (with_state s closed)
      (record_state_change s.timeline now.millis (codes "closing") (codes "closed"))

unfoldable pub close : Session → Clock → Clock → Result Unit → Done
unfolding begin_close end_close
close s now later reply =
    if is_closed s.state then record { session = s; calls = []; result = ok tt } else record {
      session = end_close (begin_close s now) later;
      calls = handle_close ∷ [];
      result = reply;
    }

pub record SessionSummary : Type 0 where
  pub id : Text
  pub host : Text
  pub state : SessionState
  pub pty_size : PtySize
  pub created_at : ℕ
  pub last_activity : ℕ
  pub written : ℕ
  pub name : Option Text
  pub approval_mode : ApprovalMode

unfoldable pub summary : Session → SessionSummary
summary s = record {
  id = s.id;
  host = s.host;
  state = s.state;
  pty_size = s.pty_size;
  created_at = s.created_at;
  last_activity = s.last_activity;
  written = s.output.buffer.written;
  name = none;
  approval_mode = s.approval_mode;
}
