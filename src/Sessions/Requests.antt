-- ===== src/Sessions/Requests.antt =====
-- src/application/sessions.rs: the requests to the manager in sequence, with what the tasks of the
-- sessions do between them.
use term_bridge.Prelude.{ℕ, Option, none, some, List}
use term_bridge.Text.{Text}
use term_bridge.Table.{lookup}
use term_bridge.Provider.{ControlKey, Result}
use term_bridge.Policy.{ApprovalMode}
use term_bridge.Session.{Clock, Session, running, finished, read_turn, read_exit}
use term_bridge.Sessions.{
  SessionManager, put, send_input, send_control, resize, prepare_for_raw_mode, close_session,
  set_approval_mode, read_output, write_raw,
}
use term_bridge.Engine.{ReadOutputParams, ReadOutputResult, Surroundings}
use term_bridge.Engine.Lines.{Match}
use term_bridge.Sessions.Reconnecting.{reconnect_session}
use term_bridge.Sessions.Opening.{Environment, detach_session}
use term_bridge.Sessions.Reaper.{reap_idle}

-- The requests that give no id, and the turns and ends of the read tasks.
pub data Request : Type 0 where
  inputs : Text → Clock → List ℕ → Result Unit → Request
  controls : Text → Clock → ControlKey → Result Unit → Request
  resizes : Text → (cols rows : ℕ) → Result Unit → Request
  goes_raw : Text → Request
  closes : Text → (now later : Clock) → Result Unit → Request
  approves : Text → ApprovalMode → Request
  detaches : Text → Result Unit → Request
  reaps : (now later : Clock) → ℕ → (Text → Result Unit) → Request
  reads : Text → Clock → ReadOutputParams → Surroundings → Request
  writes_raw : Text → List ℕ → Result Unit → Request
  reconnects : Environment → Text → Clock → Result Unit → Request
  turns : Text → Clock → List ℕ → Request
  exits : Text → Request

-- What the read task of the session under the id does, if it runs.
abbrev pub on_task : SessionManager → Text → (Session → Session) → SessionManager
on_task manager id act = elim (lookup id manager.sessions) [
  | none ↦ manager
  | some session ↦ elim session.read_task [
    | some running ↦ put manager id (act session)
    | some finished ↦ manager
    | none ↦ manager
  ]
]

-- A read that still waits has changed nothing yet.
abbrev pub read_or_wait :
    SessionManager → Option (SessionManager × Result ReadOutputResult) → SessionManager
read_or_wait manager none = manager
read_or_wait manager (some (manager', r)) = manager'

module _ {R : Type 0} (compile : List ℕ → Option R) (find : R → List ℕ → Option Match) where
  abbrev pub serve : SessionManager → Request → SessionManager
  serve manager (inputs id now data_in reply) = (send_input manager id now data_in reply).manager
  serve manager (controls id now key reply) = (send_control manager id now key reply).manager
  serve manager (resizes id cols rows reply) = (resize manager id cols rows reply).manager
  serve manager (goes_raw id) = (prepare_for_raw_mode manager id).manager
  serve manager (closes id now later reply) = (close_session manager id now later reply).manager
  serve manager (approves id mode) = (set_approval_mode manager id mode).manager
  serve manager (detaches id reply) = (detach_session manager id reply).0
  serve manager (reaps now later timeout replies) = record manager {
    sessions = (reap_idle now later timeout replies manager.sessions).0;
  }
  serve manager (reads id now params surroundings) =
      read_or_wait manager (read_output compile find manager id now params surroundings)
  serve manager (writes_raw id data_in reply) = (write_raw manager id data_in reply).manager
  serve manager (reconnects env id now reply) = (reconnect_session manager env id now reply).manager
  serve manager (turns id now data_in) =
      on_task manager id (λ session. read_turn session now data_in)
  serve manager (exits id) = on_task manager id read_exit
