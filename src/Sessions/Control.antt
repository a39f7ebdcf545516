-- ===== src/Sessions/Control.antt =====
-- src/application/sessions.rs: the manager behind the control socket.
use term_bridge.Prelude.{Option, none, some, List, map, if◌then◌else◌}
use term_bridge.Text.{Text, codes, eq_text}
use term_bridge.Table.{lookup}
use term_bridge.Provider.{TermError, Result, ok, err}
use term_bridge.Policy.{ApprovalMode, standard, unrestricted}
use term_bridge.Session.{SessionSummary, state_name, summary}
use term_bridge.Sessions.{SessionManager, list_sessions, set_approval_mode}

unfoldable pub approval_name : ApprovalMode → Text
approval_name standard = codes "standard"
approval_name unrestricted = codes "unrestricted"

pub record SessionControlInfo : Type 0 where
  pub id : Text
  pub host : Text
  pub state : Text
  pub approval_mode : Text

abbrev info_of : SessionSummary → SessionControlInfo
info_of s = record {
  id = s.id;
  host = s.host;
  state = state_name s.state;
  approval_mode = approval_name s.approval_mode;
}

unfoldable pub control_list : SessionManager → List SessionControlInfo
control_list manager = map info_of (list_sessions manager)

unfoldable pub control_get : SessionManager → Text → Option SessionControlInfo
control_get manager id = elim (lookup id manager.sessions) [
  | none ↦ none
  | some session ↦ some (info_of (summary session))
]

-- The message of a failure is the error that it prints.
pub data ControlError : Type 0 where
  invalid_mode : Text → ControlError
  session_error : TermError → ControlError

abbrev mode_of : Text → Option ApprovalMode
mode_of mode =
    if eq_text mode (codes "standard")
    then some standard
    else if eq_text mode (codes "unrestricted")
    then some unrestricted
    else none

abbrev control_result : Result Unit → Option ControlError
control_result (ok _) = none
control_result (err e) = some (session_error e)

-- The new manager, and the error if there is one.
unfoldable pub control_set_approval_mode :
    SessionManager → Text → Text → SessionManager × Option ControlError
control_set_approval_mode manager id mode = elim (mode_of mode) [
  | none ↦ (manager, some (invalid_mode mode))
  | some approval_mode ↦
      let reply = set_approval_mode manager id approval_mode in
      (reply.manager, control_result reply.result)
]
