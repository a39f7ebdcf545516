-- ===== src/Sessions/Reconnecting/Outcome.antt =====
-- src/application/sessions.rs: the ways in which `reconnect_session` ends.
use term_bridge.Prelude.{◌≡◌, ◌≢◌, some, [], ◌∷◌, false}
use term_bridge.Text.{Text}
use term_bridge.Table.{lookup}
use term_bridge.Provider.{TermError, Result, ok, err}
use term_bridge.Session.{
  closed, lost, state_name, HandleKind, handle_close, Clock, Session, close, new_session,
}
use term_bridge.Sessions.{SessionManager, get_session}
use term_bridge.Sessions.Opening.{Environment}
use term_bridge.Sessions.Reconnecting.{reconnected, not_lost, failed, Reconnected}

-- The session under the id; the others are as they were.
pub record OnlyChanges (before after : SessionManager) (id : Text) (now_there : Session)
    : Type 0 where
  pub there : lookup id after.sessions ≡ some now_there
  pub others : (k : Text) → k ≢ id → lookup k after.sessions ≡ lookup k before.sessions

pub data Outcome (manager : SessionManager) (now : Clock) (id : Text) (r : Reconnected)
    : Type 0 where
  unknown :
      (e : TermError)
      → get_session manager id ≡ err e
      → r ≡ record { manager = manager; calls = []; result = err e }
      → Outcome manager now id r
  still_up :
      (session : Session)
      → get_session manager id ≡ ok session
      → session.state ≢ lost
      → r ≡ record {
        manager = manager;
        calls = [];
        result = ok (not_lost id (state_name session.state));
      }
      → Outcome manager now id r
  given_up :
      (session left : Session) (e : TermError)
      → get_session manager id ≡ ok session
      → session.state ≡ lost
      → left.state ≡ closed
      → r.calls ≡ handle_close ∷ []
      → r.result ≡ ok (failed id e)
      → OnlyChanges manager r.manager id left
      → Outcome manager now id r
  replaced :
      (session : Session) (host : Text) (handle : HandleKind)
      → get_session manager id ≡ ok session
      → session.state ≡ lost
      → r.calls ≡ handle_close ∷ []
      → r.result ≡ ok (reconnected id host false)
      → OnlyChanges manager r.manager id (new_session now id host session.pty_size handle)
      → Outcome manager now id r

module _ (manager : SessionManager) (env : Environment) (id : Text) (now : Clock)
    (reply : Result Unit) where
  module _ (session : Session) (g : get_session manager id ≡ ok session)
      (l : session.state ≡ lost) where
    abbrev left : Session
    left = (close session now now reply).session
