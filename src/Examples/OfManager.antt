-- ===== src/Examples/OfManager.antt =====
-- A manager with one session, whose one policy allows all or denies all.
use term_bridge.Prelude.{ℕ, Option, ◌≤◌, ◌≡◌, refl, true, false, none, some, List, [], ◌∷◌, arith}
use term_bridge.Text.{Text, codes}
use term_bridge.Utf8.{from_utf8_lossy}
use term_bridge.Decimal.{decimal}
use term_bridge.Table.{lookup}
use term_bridge.Provider.{policy_denied, Result, ok}
use term_bridge.PathPolicy.{PathPolicy, LocalPaths, check_remote_access, check_scope_and_safety}
use term_bridge.PathPolicy.Lexical.{expand_tilde, is_under_remote, hard_safety_deny}
use term_bridge.Policy.{PolicyManager, authorize, authorize_with_approval}
use term_bridge.Policy.Chain.{here}
use term_bridge.Policy.Rules.{Action, Decision, allow, deny}
use term_bridge.HostPolicy.{resolve, allowed_remote_paths_for}
use term_bridge.Session.{Session, ssh_handle, lost, is_idle, new_session, read_exit}
use term_bridge.Transfer.{RemoteEntry}
use term_bridge.Sessions.{
  SessionManager, get_session, check_policy, next_session_id, send_input, fails,
}
use term_bridge.Sessions.Reason.{policy_reason}
use term_bridge.Sessions.Gate.{Outcome, send_input-Outcome, denied-silent}
use term_bridge.Sessions.Files.{
  Sftp, sftp_remove, open_sftp_for_session, remote_roots_for, remove_recursive,
}
use term_bridge.Sessions.Files.Operations.{FileOp, removes, perform, uses, Passed}
use term_bridge.Sessions.Files.Checked.{perform-Passed}
use term_bridge.Sessions.Files.Tree.{GoesBelow, remove_recursive-GoesBelow}
use term_bridge.Sessions.Opening.{
  Host, Environment, given, open_session, resolve_auth_mode, resolve_session_mode,
  validate_auth_session_combo,
}
use term_bridge.Sessions.Ids.{Event, opens, requests, IsAdded, open_session-IsAdded, run}
use term_bridge.Sessions.Requests.{exits, reconnects}
use term_bridge.Engine.Lines.{Match}
use term_bridge.Sessions.Prompting.{AllProper, open_session-AllProper}
use term_bridge.Sessions.Reconnecting.{reconnect_session}
use term_bridge.Sessions.Reconnecting.Outcome
use term_bridge.Sessions.Reaper.{reap_idle, reap_idle-lookup}
use term_bridge.Examples.OfSession.{live, noon, typed}

abbrev everywhere : PathPolicy
everywhere = record { allowed_local_paths = []; allowed_remote_paths = codes "/" ∷ [] }

abbrev always : Decision → PolicyManager
always decision = record { policies = record { authorize = λ action. decision } ∷ [] }

abbrev manager_of : Decision → Session → SessionManager
manager_of decision session = record {
  sessions = (codes "sess_0", session) ∷ [];
  counter = 1;
  path_policy = everywhere;
  policy = always decision;
  host_policy = record { config = record { hosts = [] }; corrupt = false };
}

abbrev open_manager : SessionManager
open_manager = manager_of allow live

abbrev closed_manager : SessionManager
closed_manager = manager_of deny live

abbrev first_id : Text
first_id = codes "sess_0"

send_input-Outcome_example :
    Outcome open_manager first_id typed
      (ok tt)
      (send_input open_manager first_id noon typed (ok tt))
send_input-Outcome_example = send_input-Outcome open_manager first_id noon typed (ok tt)

abbrev typing : Action
typing = Action.send_input first_id (from_utf8_lossy typed)

denied-silent_example :
    send_input closed_manager first_id noon typed (ok tt)
    ≡ fails closed_manager (policy_denied (policy_reason typing (codes "blocked")))
denied-silent_example =
    denied-silent closed_manager first_id noon typed (ok tt)
      (here (record { authorize = λ action. deny }) [] refl)

abbrev entries : List RemoteEntry
entries =
    record { name = codes "f"; is_dir = false; is_file = true; size = 3; permissions = none } ∷ []

abbrev channel : Sftp
channel = record {
  canonical = record { home = none; canonicalize = λ path. ok path };
  list_dir = λ calls remote. ok entries;
  answer = λ calls call. ok tt;
}

abbrev files : LocalPaths
files = record { canonicalize = λ p. some (p ∷ []); components = λ p. p ∷ []; parent = λ p. none }

abbrev removal : FileOp
removal = removes (codes "/srv/x") true

removal-uses :
    uses (perform open_manager open_manager.sessions files first_id (ok channel) removal) ≡ true
unfolding sftp_remove open_sftp_for_session remote_roots_for remove_recursive get_session
    check_policy authorize authorize_with_approval check_remote_access check_scope_and_safety
    expand_tilde is_under_remote hard_safety_deny allowed_remote_paths_for
removal-uses = refl

perform-Passed_example :
    Passed open_manager open_manager.sessions files first_id (ok channel) removal
perform-Passed_example =
    perform-Passed open_manager open_manager.sessions files first_id (ok channel) removal
      removal-uses

remove_recursive-GoesBelow_example :
    GoesBelow (codes "/srv/x") [] (remove_recursive channel 21 [] (codes "/srv/x")).0
remove_recursive-GoesBelow_example = remove_recursive-GoesBelow channel 21 [] (codes "/srv/x")

abbrev prod : Host
prod = record { name = codes "prod"; hostname = codes "10.0.0.1"; port = 22; user = codes "u" }

abbrev env : Environment
env = record {
  resolve_host = λ host_alias. ok prod;
  request_password = λ hostname user. given (record { secret = codes "s"; user = none });
  open_terminal = λ request. ok ssh_handle;
  attach = none;
}

abbrev no_sessions : SessionManager
no_sessions = record open_manager { sessions = [] }

abbrev no_patterns : List ℕ → Option ℕ
no_patterns pattern = none

abbrev no_match : ℕ → List ℕ → Option Match
no_match r bytes = none

-- The first session is lost and opened once more.
abbrev before_it : List Event
before_it =
    opens env noon (codes "prod") none none none
    ∷ (requests (exits (codes "sess_1"))
        ∷ (requests (reconnects env (codes "sess_1") noon (ok tt)) ∷ []))

abbrev one_session : SessionManager
one_session = run no_patterns no_match no_sessions before_it

opened_second :
    (open_session one_session env noon (codes "prod") none none none).result ≡ ok (codes "sess_2")
unfolding run open_session resolve_auth_mode resolve_session_mode resolve
    validate_auth_session_combo next_session_id decimal reconnect_session get_session new_session
    read_exit
opened_second = refl

open_session-IsAdded_example :
    IsAdded one_session noon
      (open_session one_session env noon (codes "prod") none none none).manager
      (codes "sess_2")
open_session-IsAdded_example =
    open_session-IsAdded no_patterns no_match no_sessions before_it env noon (codes "prod") none
      none none (codes "sess_2") refl (omega arith) opened_second

open_session-AllProper_example :
    AllProper
      (resolve_auth_mode open_manager (codes "prod"))
      (resolve_session_mode open_manager (codes "prod") (some true))
      (open_session open_manager env noon (codes "prod") none (some true) none).asked
open_session-AllProper_example =
    open_session-AllProper open_manager env noon (codes "prod") none (some true) none

abbrev broken_manager : SessionManager
broken_manager = manager_of allow (record live { state = lost })

abbrev at_once : Text → Result Unit
at_once id = ok tt

same_time : noon.secs ≤ noon.secs
same_time = omega arith

reap_idle-lookup_example :
    (lookup first_id (reap_idle noon noon 1800 at_once open_manager.sessions).0 ≡ some live
      → (lookup first_id open_manager.sessions ≡ some live) × (is_idle live noon 1800 ≡ false))
    × (lookup first_id open_manager.sessions ≡ some live
        → is_idle live noon 1800 ≡ false
        → lookup first_id (reap_idle noon noon 1800 at_once open_manager.sessions).0 ≡ some live)
reap_idle-lookup_example =
    reap_idle-lookup noon noon 1800 at_once open_manager.sessions first_id live same_time
