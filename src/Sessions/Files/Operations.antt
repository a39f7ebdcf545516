-- ===== src/Sessions/Files/Operations.antt =====
-- src/application/sessions.rs: the SFTP operations as data, and what stands before their calls.
use term_bridge.Prelude.{Option, none, some, ◌≡◌, Bool, true, false, ℕ, List, [], ◌∷◌}
use term_bridge.Text.{Text}
use term_bridge.Table.{lookup}
use term_bridge.Decimal.{octal}
use term_bridge.Provider.{TransferDirection, Result, ok}
use term_bridge.PathPolicy.{LocalPaths, check_local, check_remote_access}
use term_bridge.PathPolicy.Lexical.{RemoteOperation}
use term_bridge.Policy.Rules.{Action}
use term_bridge.HostPolicy.{allowed_remote_paths_for}
use term_bridge.Session.{ssh_handle, Session}
use term_bridge.Sessions.{SessionManager, get_session, check_policy}
use term_bridge.Sessions.Files.{
  SftpCall, call_close, Sftp, transfer_op, sftp_mkdir, sftp_list, sftp_remove, sftp_chmod,
  sftp_transfer, sftp_transfer_dir,
}

pub data FileOp : Type 0 where
  makes_dir : Text → ℕ → FileOp
  lists : Text → FileOp
  removes : Text → Bool → FileOp
  changes_mode : Text → ℕ → FileOp
  transfers transfers_dir : TransferDirection → (local remote : Text) → FileOp

abbrev pub perform :
    SessionManager
    → List (Text × Session)
    → LocalPaths
    → Text
    → Result Sftp
    → FileOp
    → List SftpCall
perform manager seen files id opened (makes_dir remote mode) =
    (sftp_mkdir manager seen id opened remote mode).0
perform manager seen files id opened (lists remote) = (sftp_list manager seen id opened remote).0
perform manager seen files id opened (removes remote recursive) =
    (sftp_remove manager seen id opened remote recursive).0
perform manager seen files id opened (changes_mode remote mode) =
    (sftp_chmod manager seen id opened remote mode).0
perform manager seen files id opened (transfers direction local remote) =
    (sftp_transfer manager seen files id opened direction local remote).0
perform manager seen files id opened (transfers_dir direction local remote) =
    (sftp_transfer_dir manager seen files id opened direction local remote).0

-- What the policies have passed.
abbrev pub PolicyPassed : SessionManager → FileOp → Type 0
PolicyPassed manager (makes_dir remote mode) = Unit
PolicyPassed manager (lists remote) = Unit
PolicyPassed manager (removes remote recursive) =
    check_policy manager (Action.sftp_remove remote recursive) ≡ ok tt
PolicyPassed manager (changes_mode remote mode) =
    check_policy manager (Action.sftp_chmod remote (octal mode)) ≡ ok tt
PolicyPassed manager (transfers direction local remote) =
    check_policy manager (Action.sftp_transfer direction local remote) ≡ ok tt
PolicyPassed manager (transfers_dir direction local remote) =
    check_policy manager (Action.sftp_transfer direction local remote) ≡ ok tt

abbrev pub LocalPassed : SessionManager → LocalPaths → FileOp → Type 0
LocalPassed manager files (makes_dir remote mode) = Unit
LocalPassed manager files (lists remote) = Unit
LocalPassed manager files (removes remote recursive) = Unit
LocalPassed manager files (changes_mode remote mode) = Unit
LocalPassed manager files (transfers direction local remote) =
    check_local manager.path_policy files local ≡ ok tt
LocalPassed manager files (transfers_dir direction local remote) =
    check_local manager.path_policy files local ≡ ok tt

abbrev pub remote_of : FileOp → Text
remote_of (makes_dir remote mode) = remote
remote_of (lists remote) = remote
remote_of (removes remote recursive) = remote
remote_of (changes_mode remote mode) = remote
remote_of (transfers direction local remote) = remote
remote_of (transfers_dir direction local remote) = remote

abbrev pub operation_of : FileOp → RemoteOperation
operation_of (makes_dir remote mode) = RemoteOperation.create
operation_of (lists remote) = RemoteOperation.read
operation_of (removes remote recursive) = RemoteOperation.delete
operation_of (changes_mode remote mode) = RemoteOperation.chmod
operation_of (transfers direction local remote) = transfer_op direction
operation_of (transfers_dir direction local remote) = transfer_op direction

-- The scope of the remote check: that of the session's host, or, once the session has left the
-- map, the global one.
pub data Scope (manager : SessionManager) (seen : List (Text × Session)) (id : Text)
    (roots : Option (List Text)) : Type 0 where
  of_host :
      (session : Session)
      → lookup id seen ≡ some session
      → roots ≡ allowed_remote_paths_for manager.host_policy session.host
      → Scope manager seen id roots
  global : lookup id seen ≡ none → roots ≡ none → Scope manager seen id roots

-- The session has an SSH handle with an open channel, and the check of the remote path passes.
pub record RemotePassed (manager : SessionManager) (seen : List (Text × Session)) (id : Text)
    (opened : Result Sftp) (remote : Text) (op : RemoteOperation) : Type 0 where
  pub session : Session
  pub sftp : Sftp
  pub found : get_session manager id ≡ ok session
  pub over_ssh : session.handle ≡ ssh_handle
  pub channel : opened ≡ ok sftp
  pub roots : Option (List Text)
  pub scope : Scope manager seen id roots
  pub passed : check_remote_access manager.path_policy remote op roots sftp.canonical ≡ ok tt

-- Whether a call is made other than the close.
abbrev pub uses : List SftpCall → Bool
uses [] = false
uses (call_close ∷ calls) = uses calls
uses (call ∷ calls) = true

-- What has to hold before the channel is used.
abbrev pub Passed :
    SessionManager → List (Text × Session) → LocalPaths → Text → Result Sftp → FileOp → Type 0
Passed manager seen files id opened op =
    PolicyPassed manager op
    × LocalPassed manager files op
    × RemotePassed manager seen id opened (remote_of op) (operation_of op)
