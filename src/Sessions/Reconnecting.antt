-- ===== src/Sessions/Reconnecting.antt =====
-- src/application/sessions.rs: `reconnect_session`. The reason of a failure is the error that it
-- prints.
pub mod Outcome
use term_bridge.Prelude.{ℕ, Bool, false, Option, none, List, [], ◌∷◌}
use term_bridge.Text.{Text}
use term_bridge.Provider.{PtySize, TermError, Result, ok, err}
use term_bridge.Session.{
  SessionState, creating, ready, closing, closed, lost, state_name, HandleKind, HandleCall, Clock,
  Session, close, new_session,
}
use term_bridge.Sessions.{SessionManager, put, get_session}
use term_bridge.Sessions.Opening.{Host, Environment}

pub data ReconnectResult : Type 0 where
  reconnected : (session_id host : Text) (cwd_restored : Bool) → ReconnectResult
  not_lost : (session_id current_state : Text) → ReconnectResult
  failed : (session_id : Text) → TermError → ReconnectResult

pub record Reconnected : Type 0 where
  pub manager : SessionManager
  pub calls : List HandleCall
  pub result : Result ReconnectResult

abbrev pub reopened :
    SessionManager
    → Text
    → Clock
    → PtySize
    → Host
    → Result HandleKind
    → SessionManager × ReconnectResult
reopened manager id now pty_size host (err e) = (manager, failed id e)
reopened manager id now pty_size host (ok handle) =
    (put manager id (new_session now id host.name pty_size handle), reconnected id host.name false)

-- Behind the close of the old session.
abbrev pub reopen :
    SessionManager → Environment → Text → Clock → PtySize → Text → SessionManager × ReconnectResult
reopen manager env id now pty_size host_name = elim (env.resolve_host host_name) [
  | err e ↦ (manager, failed id e)
  | ok host ↦ reopened manager id now pty_size host (
      env.open_terminal (record {
        host = host;
        pty_size = pty_size;
        persistent = false;
        name = none;
        password = none;
      }))
]

-- The close of a lost session, and the new one under its id.
abbrev pub reconnect_on :
    SessionManager → Environment → Text → Clock → Result Unit → Session → SessionState → Reconnected
reconnect_on manager env id now reply session lost =
    let done = close session now now reply in
    let (manager', result) =
      reopen (put manager id done.session) env id now session.pty_size session.host in
    record { manager = manager'; calls = done.calls; result = ok result }
reconnect_on manager env id now reply session state = record {
  manager = manager;
  calls = [];
  result = ok (not_lost id (state_name state));
}

unfoldable pub reconnect_session :
    SessionManager → Environment → Text → Clock → Result Unit → Reconnected
reconnect_session manager env id now reply = elim (get_session manager id) [
  | err e ↦ record { manager = manager; calls = []; result = err e }
  | ok session ↦ reconnect_on manager env id now reply session session.state
]
