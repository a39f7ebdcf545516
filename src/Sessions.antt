-- ===== src/Sessions.antt =====
-- src/application/sessions.rs: the sessions of the process and the operations on them. The map of
-- sessions is a table; an operation that gets a session out of it, and works on it, puts the new
-- state under the same id, since both are one `Arc`. The replies of the handles are arguments.
pub mod Reason
pub mod Files
pub mod Opening
pub mod Reconnecting
pub mod Fresh
pub mod Requests
pub mod Keeping
pub mod Added
pub mod Environment
pub mod Control
pub mod Prompting
pub mod Ids
pub mod Gate
pub mod Reaper
use term_bridge.Prelude.{
  ℕ, ◌+◌, ◌%◌, Bool, Option, none, some, List, [], ◌∷◌, ◌++◌, map, if◌then◌else◌,
}
use term_bridge.Text.{Text, codes}
use term_bridge.Utf8.{from_utf8_lossy}
use term_bridge.Decimal.{decimal}
use term_bridge.Table.{lookup, insert, remove}
use term_bridge.Ring.{u64}
use term_bridge.Provider.{
  PtySize, ControlKey, TermError, session_not_found, session_closed, policy_denied,
  policy_needs_confirm, Result, ok, err,
}
use term_bridge.PathPolicy.{PathPolicy}
use term_bridge.Policy.{
  ApprovalMode, standard, unrestricted, PolicyManager, authorize_with_approval,
}
use term_bridge.Policy.Rules.{Action, Decision, allow, confirm, deny}
use term_bridge.HostPolicy.{HostPolicyResolver}
use term_bridge.Engine.{ReadOutputParams, ReadOutputResult, Surroundings}
use term_bridge.Engine.Lines.{Match}
use term_bridge.Timeline.{TimelineEvent, events}
use term_bridge.Session.{
  SessionState, is_closed, state_name, HandleCall, handle_write, Clock, Session, Done,
  SessionSummary, summary, abort_read_task,
}
use term_bridge.Session
use Reason.{policy_reason}

pub record SessionManager : Type 0 where
  pub sessions : List (Text × Session)
  pub counter : ℕ
  pub path_policy : PathPolicy
  pub policy : PolicyManager
  pub host_policy : HostPolicyResolver

-- The manager behind an operation, its calls of a handle, and what it returns.
pub record Reply (A : Type 0) : Type 0 where
  pub manager : SessionManager
  pub calls : List HandleCall
  pub result : Result A

abbrev pub fails : {A : Type 0} → SessionManager → TermError → Reply A
fails manager e = record { manager = manager; calls = []; result = err e }

abbrev pub put : SessionManager → Text → Session → SessionManager
put manager id session = record manager { sessions = insert id session manager.sessions }

abbrev pub take_out : SessionManager → Text → SessionManager
take_out manager id = record manager { sessions = remove id manager.sessions }

abbrev or_not_found : Text → Option Session → Result Session
or_not_found id none = err (session_not_found id)
or_not_found id (some session) = ok session

unfoldable pub get_session : SessionManager → Text → Result Session
get_session manager id = or_not_found id (lookup id manager.sessions)

-- The new id, with the counter that `fetch_add` leaves.
unfoldable pub next_session_id : SessionManager → Text × SessionManager
next_session_id manager = (
  codes "sess_" ++ decimal manager.counter,
  record manager { counter = (manager.counter + 1) % u64 },
)

unfoldable pub cleanup_detached_session : SessionManager → Text → Session → SessionManager
cleanup_detached_session manager id session =
    if is_closed session.state then take_out manager id else manager

abbrev approval_or_standard : Option Session → ApprovalMode
approval_or_standard none = standard
approval_or_standard (some session) = session.approval_mode

abbrev pub approval_for : SessionManager → Action → ApprovalMode
approval_for manager (Action.send_input id data_in) =
    approval_or_standard (lookup id manager.sessions)
approval_for manager (Action.sftp_transfer direction local remote) = standard
approval_for manager (Action.sftp_remove remote recursive) = standard
approval_for manager (Action.sftp_chmod remote mode) = standard

abbrev pub decided : Action → Decision → Result Unit
decided action allow = ok tt
decided action deny = err (policy_denied (policy_reason action (codes "blocked")))
decided action confirm =
    err (policy_needs_confirm (policy_reason action (codes "needs confirmation")))

unfoldable pub check_policy : SessionManager → Action → Result Unit
check_policy manager action =
    decided action (authorize_with_approval manager.policy action (approval_for manager action))

-- A session that refuses for good leaves the map.
abbrev pub after : SessionManager → Text → Done → SessionManager
after manager id done =
    let manager' = put manager id done.session in
    elim done.result [
      | ok _ ↦ manager'
      | err (session_closed _) ↦ cleanup_detached_session manager' id done.session
      | err _ ↦ manager'
    ]

abbrev pub with_done : SessionManager → Text → Done → Reply Unit
with_done manager id done = record {
  manager = after manager id done;
  calls = done.calls;
  result = done.result;
}

-- `get_session(id)?`, and then an operation of the session.
abbrev pub on_session : SessionManager → Text → (Session → Done) → Reply Unit
on_session manager id operate = elim (get_session manager id) [
  | err e ↦ fails manager e
  | ok session ↦ with_done manager id (operate session)
]

unfoldable pub send_input : SessionManager → Text → Clock → List ℕ → Result Unit → Reply Unit
unfolding get_session check_policy
send_input manager id now data_in reply =
    elim (check_policy manager (Action.send_input id (from_utf8_lossy data_in))) [
      | err e ↦ fails manager e
      | ok _ ↦ on_session manager id (λ session. Session.send_input session now data_in reply)
    ]

unfoldable pub send_control : SessionManager → Text → Clock → ControlKey → Result Unit → Reply Unit
unfolding get_session
send_control manager id now key reply =
    on_session manager id (λ session. Session.send_control session now key reply)

unfoldable pub resize : SessionManager → Text → ℕ → ℕ → Result Unit → Reply Unit
unfolding get_session
resize manager id cols rows reply =
    on_session manager id
      (λ session. Session.resize session (record { rows = rows; cols = cols }) reply)

module _ {R : Type 0} (compile : List ℕ → Option R) (find : R → List ℕ → Option Match) where
  unfoldable pub read_output :
      SessionManager
      → Text
      → Clock
      → ReadOutputParams
      → Surroundings
      → Option (SessionManager × Result ReadOutputResult)
  unfolding get_session cleanup_detached_session
  read_output manager id now params surroundings = elim (get_session manager id) [
    | err e ↦ some (manager, err e)
    | ok session ↦ elim (Session.read_output compile find session now params surroundings) [
      | none ↦ none
      | some (session', ok r) ↦ some (put manager id session', ok r)
      | some (session', err (session_closed s)) ↦
          some
            (cleanup_detached_session (put manager id session') id session', err (session_closed s))
      | some (session', err e) ↦ some (put manager id session', err e)
    ]
  ]

unfoldable pub prepare_for_raw_mode : SessionManager → Text → Reply Unit
prepare_for_raw_mode manager id = elim (get_session manager id) [
  | err e ↦ fails manager e
  | ok session ↦ record {
    manager = put manager id (abort_read_task session);
    calls = [];
    result = ok tt;
  }
]

unfoldable pub write_raw : SessionManager → Text → List ℕ → Result Unit → Reply Unit
write_raw manager id data_in reply = elim (get_session manager id) [
  | err e ↦ fails manager e
  | ok session ↦ record { manager = manager; calls = handle_write data_in ∷ []; result = reply }
]

-- The session leaves the map before it is closed.
unfoldable pub close_session : SessionManager → Text → Clock → Clock → Result Unit → Reply Unit
close_session manager id now later reply = elim (lookup id manager.sessions) [
  | none ↦ record { manager = manager; calls = []; result = ok tt }
  | some session ↦
      let done = Session.close session now later reply in
      record { manager = take_out manager id; calls = done.calls; result = done.result }
]

unfoldable pub list_sessions : SessionManager → List SessionSummary
list_sessions manager = map (λ row. summary (row.1)) manager.sessions

unfoldable pub set_approval_mode : SessionManager → Text → ApprovalMode → Reply Unit
set_approval_mode manager id mode = elim (get_session manager id) [
  | err e ↦ fails manager e
  | ok session ↦ record {
    manager = put manager id (Session.set_approval_mode session mode);
    calls = [];
    result = ok tt;
  }
]

unfoldable pub get_session_timeline : SessionManager → Text → Option ℕ → Result (List TimelineEvent)
get_session_timeline manager id limit = elim (get_session manager id) [
  | err e ↦ err e
  | ok session ↦ ok (events session.timeline limit)
]

unfoldable pub session_state : SessionManager → Text → Result Text
session_state manager id = elim (get_session manager id) [
  | err e ↦ err e
  | ok session ↦ ok (state_name session.state)
]
