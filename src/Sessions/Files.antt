-- ===== src/Sessions/Files.antt =====
-- src/application/sessions.rs: the SFTP operations of a session. The channel is a parameter: what
-- it answers to a call may depend on all calls before it, which are kept in their order. The
-- report of a directory's transfer is left out.
-- The text of an `InvalidArgument` is shortened.
pub mod Operations
pub mod Checked
pub mod Tree
use term_bridge.Prelude.{
  ℕ, zero, suc, Bool, true, false, not, Option, none, some, List, [], ◌∷◌, ◌++◌, if◌then◌else◌,
}
use term_bridge.Text.{Text, codes, slash, ends_with}
use term_bridge.Decimal.{octal}
use term_bridge.Provider.{
  TransferDirection, upload, download, TermError, invalid_argument, Result, ok, err,
  SftpCanonicalize,
}
use term_bridge.PathPolicy.{LocalPaths, check_local, check_remote_access}
use term_bridge.PathPolicy.Lexical.{RemoteOperation}
use term_bridge.Policy.Rules.{Action}
use term_bridge.HostPolicy.{allowed_remote_paths_for}
use term_bridge.Session.{HandleKind, ssh_handle, persistent_handle, other_handle, Session}
use term_bridge.Transfer.{RemoteEntry}
use term_bridge.Sessions.{SessionManager, get_session, check_policy}

pub data SftpCall : Type 0 where
  call_list_dir call_remove call_rmdir : Text → SftpCall
  call_mkdir call_chmod : Text → ℕ → SftpCall
  call_upload call_download call_upload_dir call_download_dir : (local remote : Text) → SftpCall
  call_close : SftpCall

pub record Sftp : Type 0 where
  pub canonical : SftpCanonicalize
  pub list_dir : List SftpCall → Text → Result (List RemoteEntry)
  pub answer : List SftpCall → SftpCall → Result Unit

-- The calls of the channel so far, and what comes of them.
abbrev pub Traced : Type 0
Traced = List SftpCall × Result Unit

abbrev pub call_sftp : Sftp → List SftpCall → SftpCall → Traced
call_sftp sftp calls call = (calls ++ (call ∷ []), sftp.answer calls call)

abbrev pub then_call : Traced → (List SftpCall → Traced) → Traced
then_call (calls, ok _) next = next calls
then_call (calls, err e) next = (calls, err e)

abbrev pub child_path : Text → Text → Text
child_path remote name =
    if ends_with remote (slash ∷ []) then remote ++ name else remote ++ (slash ∷ name)

-- The loop over the entries; `descend` is the recursion on a directory.
unfoldable pub remove_entries :
    Sftp → (List SftpCall → Text → Traced) → Text → List SftpCall → List RemoteEntry → Traced
remove_entries sftp descend remote calls [] = (calls, ok tt)
remove_entries sftp descend remote calls (entry ∷ entries) =
    let child = child_path remote entry.name in
    let removed =
      if entry.is_dir then descend calls child else call_sftp sftp calls (call_remove child) in
    then_call removed (λ calls'. remove_entries sftp descend remote calls' entries)

abbrev pub too_deep : TermError
too_deep = invalid_argument (codes "sftp recursive remove exceeded max depth 20")

-- `sftp_remove_recursive`, with the levels that are left: MAX_DEPTH + 1 - depth.
unfoldable pub remove_recursive : Sftp → ℕ → List SftpCall → Text → Traced
unfolding remove_entries
remove_recursive sftp zero calls remote = (calls, err too_deep)
remove_recursive sftp (suc left) calls remote =
    let listed = calls ++ (call_list_dir remote ∷ []) in
    elim (sftp.list_dir calls remote) [
      | err e ↦ (listed, err e)
      | ok entries ↦
          then_call
            (remove_entries sftp (λ calls' child. remove_recursive sftp left calls' child) remote
              listed entries)
            (λ calls'. call_sftp sftp calls' (call_rmdir remote))
    ]

abbrev pub max_levels : ℕ
max_levels = 21

-- `opened` is the reply of `open_sftp_provider`.
abbrev open_on : HandleKind → Result Sftp → Result Sftp
open_on ssh_handle opened = opened
open_on persistent_handle opened = err (invalid_argument (codes "session does not support SFTP"))
open_on other_handle opened = err (invalid_argument (codes "session does not support SFTP"))

unfoldable pub open_sftp_for_session : SessionManager → Text → Result Sftp → Result Sftp
open_sftp_for_session manager id opened = elim (get_session manager id) [
  | err e ↦ err e
  | ok session ↦ open_on session.handle opened
]

unfoldable pub remote_roots_for : SessionManager → Text → Option (List Text)
remote_roots_for manager id = elim (get_session manager id) [
  | err e ↦ none
  | ok session ↦ allowed_remote_paths_for manager.host_policy session.host
]

-- `seen` are the sessions that the check finds, which others may have changed since the channel was
-- opened.
abbrev pub remote_check :
    SessionManager → List (Text × Session) → Text → Sftp → Text → RemoteOperation → Result Unit
remote_check manager seen id sftp remote op =
    check_remote_access manager.path_policy remote op
      (remote_roots_for (record manager { sessions = seen }) id) sftp.canonical

-- `?` on a check before the channel is used.
abbrev pub checked : Result Unit → Traced → Traced
checked (ok _) next = next
checked (err e) next = ([], err e)

-- The channel is closed whatever the operation returned.
abbrev pub closing_after : Traced → Traced
closing_after (calls, result) = (calls ++ (call_close ∷ []), result)

abbrev pub with_channel : SessionManager → Text → Result Sftp → (Sftp → Traced) → Traced
with_channel manager id opened use_it = elim (open_sftp_for_session manager id opened) [
  | err e ↦ ([], err e)
  | ok sftp ↦ closing_after (use_it sftp)
]

unfoldable pub sftp_mkdir :
    SessionManager → List (Text × Session) → Text → Result Sftp → Text → ℕ → Traced
unfolding open_sftp_for_session
sftp_mkdir manager seen id opened remote mode = with_channel manager id opened (λ sftp.
    checked (remote_check manager seen id sftp remote RemoteOperation.create)
      (call_sftp sftp [] (call_mkdir remote mode)))

unfoldable pub sftp_list :
    SessionManager
    → List (Text × Session)
    → Text
    → Result Sftp
    → Text
    → List SftpCall × Result (List RemoteEntry)
sftp_list manager seen id opened remote = elim (open_sftp_for_session manager id opened) [
  | err e ↦ ([], err e)
  | ok sftp ↦ elim (remote_check manager seen id sftp remote RemoteOperation.read) [
    | err e ↦ (call_close ∷ [], err e)
    | ok _ ↦ (call_list_dir remote ∷ (call_close ∷ []), sftp.list_dir [] remote)
  ]
]

unfoldable pub sftp_remove :
    SessionManager → List (Text × Session) → Text → Result Sftp → Text → Bool → Traced
unfolding open_sftp_for_session remove_recursive
sftp_remove manager seen id opened remote recursive =
    checked (check_policy manager (Action.sftp_remove remote recursive)) (
      with_channel manager id opened (λ sftp.
        checked (remote_check manager seen id sftp remote RemoteOperation.delete) (
          if recursive
          then remove_recursive sftp max_levels [] remote
          else call_sftp sftp [] (call_remove remote))))

unfoldable pub sftp_chmod :
    SessionManager → List (Text × Session) → Text → Result Sftp → Text → ℕ → Traced
unfolding open_sftp_for_session
sftp_chmod manager seen id opened remote mode =
    checked (check_policy manager (Action.sftp_chmod remote (octal mode))) (
      with_channel manager id opened (λ sftp.
        checked (remote_check manager seen id sftp remote RemoteOperation.chmod)
          (call_sftp sftp [] (call_chmod remote mode))))

abbrev pub transfer_op : TransferDirection → RemoteOperation
transfer_op upload = RemoteOperation.create
transfer_op download = RemoteOperation.read

abbrev pub transfer_call : TransferDirection → Text → Text → SftpCall
transfer_call upload local remote = call_upload local remote
transfer_call download local remote = call_download local remote

-- A check that fails returns before the close.
unfoldable pub sftp_transfer :
    SessionManager
    → List (Text × Session)
    → LocalPaths
    → Text
    → Result Sftp
    → TransferDirection
    → Text
    → Text
    → Traced
unfolding open_sftp_for_session
sftp_transfer manager seen files id opened direction local remote =
    checked (check_policy manager (Action.sftp_transfer direction local remote))
      (elim (open_sftp_for_session manager id opened) [
        | err e ↦ ([], err e)
        | ok sftp ↦ checked (check_local manager.path_policy files local) (
            checked (remote_check manager seen id sftp remote (transfer_op direction))
              (closing_after (call_sftp sftp [] (transfer_call direction local remote))))
      ])

-- The checks of a directory's transfer come in the order of the data.
abbrev transfer_dir_on :
    SessionManager
    → List (Text × Session)
    → LocalPaths
    → Text
    → TransferDirection
    → Text
    → Text
    → Sftp
    → Traced
transfer_dir_on manager seen files id upload local remote sftp =
    checked (check_local manager.path_policy files local) (
      checked (remote_check manager seen id sftp remote RemoteOperation.create)
        (call_sftp sftp [] (call_upload_dir local remote)))
transfer_dir_on manager seen files id download local remote sftp =
    checked (remote_check manager seen id sftp remote RemoteOperation.read) (
      checked (check_local manager.path_policy files local)
        (call_sftp sftp [] (call_download_dir local remote)))

unfoldable pub sftp_transfer_dir :
    SessionManager
    → List (Text × Session)
    → LocalPaths
    → Text
    → Result Sftp
    → TransferDirection
    → Text
    → Text
    → Traced
unfolding open_sftp_for_session
sftp_transfer_dir manager seen files id opened direction local remote =
    checked (check_policy manager (Action.sftp_transfer direction local remote)) (
      with_channel manager id opened (transfer_dir_on manager seen files id direction local remote))
