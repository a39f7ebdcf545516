-- ===== src/Sessions/Files/Checked.antt =====
-- src/application/sessions.rs: what stands between a client and the SFTP channel.
use term_bridge.Prelude.{Option-cases, inl, inr, ◌≡◌, refl, sym, ◌∙◌, true, List, [], ◌∷◌, ◌++◌}
use term_bridge.Text.{Text}
use term_bridge.Table.{lookup}
use term_bridge.Provider.{TransferDirection, upload, download, Result, ok, err}
use term_bridge.PathPolicy.{LocalPaths, check_local}
use term_bridge.PathPolicy.Lexical.{RemoteOperation}
use term_bridge.Policy.Rules.{Action}
use term_bridge.Session.{HandleKind, ssh_handle, persistent_handle, other_handle, Session}
use term_bridge.Sessions.{SessionManager, get_session, check_policy}
use term_bridge.Sessions.Files.{
  SftpCall, call_close, Sftp, Traced, checked, with_channel, open_sftp_for_session,
  remote_roots_for, remote_check, transfer_op, sftp_mkdir, sftp_list, sftp_remove, sftp_chmod,
  sftp_transfer, sftp_transfer_dir,
}
use term_bridge.Sessions.Files.Operations.{
  FileOp, makes_dir, lists, removes, changes_mode, transfers, transfers_dir, perform, Scope,
  of_host, global, RemotePassed, uses, Passed,
}

uses-closing : (calls : List SftpCall) → uses (calls ++ (call_close ∷ [])) ≡ uses calls
uses-closing [] = refl
uses-closing (call_close ∷ calls) = uses-closing calls
uses-closing (call ∷ calls) = refl

checked-uses :
    (r : Result Unit) (t : Traced) → uses (checked r t).0 ≡ true → (r ≡ ok tt) × (uses t.0 ≡ true)
checked-uses (ok tt) t h = (refl, h)
checked-uses (err e) t h = cc

roots-Scope :
    (manager : SessionManager) (seen : List (Text × Session)) (id : Text)
    → Scope manager seen id (remote_roots_for (record manager { sessions = seen }) id)
unfolding remote_roots_for get_session
roots-Scope manager seen id = elim (Option-cases (lookup id seen)) [
  | inl gone ↦ global gone (rw (remote_roots_for, get_session, gone) refl)
  | inr (session, there) ↦ of_host session there (rw (remote_roots_for, get_session, there) refl)
]

module _ (manager : SessionManager) (seen : List (Text × Session)) (id : Text)
    (opened : Result Sftp) (remote : Text) (op : RemoteOperation) where
  channel_of :
      (session : Session) (kind : HandleKind) (sftp : Sftp)
      → get_session manager id ≡ ok session
      → session.handle ≡ kind
      → open_sftp_for_session manager id opened ≡ ok sftp
      → (kind ≡ ssh_handle) × (opened ≡ ok sftp)
  unfolding open_sftp_for_session
  channel_of session ssh_handle sftp g k h = (refl, rw (g, k, open_sftp_for_session) at h)
  channel_of session persistent_handle sftp g k h = cc (rw (g, k, open_sftp_for_session) at h)
  channel_of session other_handle sftp g k h = cc (rw (g, k, open_sftp_for_session) at h)

  opened_and_checked :
      (sftp : Sftp) (got : Result Session)
      → get_session manager id ≡ got
      → open_sftp_for_session manager id opened ≡ ok sftp
      → remote_check manager seen id sftp remote op ≡ ok tt
      → RemotePassed manager seen id opened remote op
  unfolding open_sftp_for_session
  opened_and_checked sftp (err e) g h c = cc (rw (g, open_sftp_for_session) at h)
  opened_and_checked sftp (ok session) g h c =
      let (over, open_channel) = channel_of session session.handle sftp g refl h in
      record {
        session = session;
        sftp = sftp;
        found = g;
        over_ssh = over;
        channel = open_channel;
        roots = remote_roots_for (record manager { sessions = seen }) id;
        scope = roots-Scope manager seen id;
        passed = c;
      }

  -- What holds once the channel has been used behind the check.
  used_behind :
      (use_it : Sftp → Traced) (P : Type 0)
      → ((sftp : Sftp)
          → uses (use_it sftp).0 ≡ true
          → (remote_check manager seen id sftp remote op ≡ ok tt) × P)
      → (o : Result Sftp) → open_sftp_for_session manager id opened ≡ o
      → uses (with_channel manager id opened use_it).0 ≡ true
      → RemotePassed manager seen id opened remote op × P
  used_behind use_it P behind (err e) o h = cc (rw (o, with_channel, uses) at h)
  used_behind use_it P behind (ok sftp) o h =
      let used : uses ((use_it sftp).0 ++ (call_close ∷ [])) ≡ true =
        rw (o, with_channel, uses) at h in
      let (passes, p) = behind sftp (sym (uses-closing (use_it sftp).0) ∙ used) in
      (opened_and_checked sftp (get_session manager id) refl o passes, p)

listed_behind :
    (manager : SessionManager) (seen : List (Text × Session)) (id remote : Text)
    (opened o : Result Sftp)
    → open_sftp_for_session manager id opened ≡ o
    → uses (sftp_list manager seen id opened remote).0 ≡ true
    → RemotePassed manager seen id opened remote RemoteOperation.read
unfolding sftp_list
listed_behind manager seen id remote opened (err e) o h = cc (rw (o, uses) at h)
listed_behind manager seen id remote opened (ok sftp) o h =
    listed (remote_check manager seen id sftp remote RemoteOperation.read) refl
  where
    listed :
        (r : Result Unit)
        → remote_check manager seen id sftp remote RemoteOperation.read ≡ r
        → RemotePassed manager seen id opened remote RemoteOperation.read
    listed (ok tt) c =
        opened_and_checked manager seen id opened remote RemoteOperation.read sftp
          (get_session manager id) refl o c
    listed (err e) c = cc (rw (o, c, uses) at h)

transferred_behind :
    (manager : SessionManager) (seen : List (Text × Session)) (files : LocalPaths) (id : Text)
    (opened o : Result Sftp)
    → (direction : TransferDirection) (local remote : Text)
    → open_sftp_for_session manager id opened ≡ o
    → check_policy manager (Action.sftp_transfer direction local remote) ≡ ok tt
    → uses (sftp_transfer manager seen files id opened direction local remote).0 ≡ true
    → (check_local manager.path_policy files local ≡ ok tt)
      × RemotePassed manager seen id opened remote (transfer_op direction)
unfolding sftp_transfer
transferred_behind manager seen files id opened (err e) direction local remote o allowed h =
    cc (rw (allowed, o, uses) at h)
transferred_behind manager seen files id opened (ok sftp) direction local remote o allowed h =
    let (fits, rest) =
      checked-uses (check_local manager.path_policy files local) _ (rw (allowed, o, uses) at h) in
    let (passes, used) =
      checked-uses (remote_check manager seen id sftp remote (transfer_op direction)) _ rest in
    (
      fits,
      opened_and_checked manager seen id opened remote (transfer_op direction) sftp
          (get_session manager id) refl o passes,
    )

-- Before any call of an SFTP channel but its close: the policies, which are asked about
-- removals, changes of mode and transfers, allowed the one at hand; the local path of a transfer
-- passed its check; the session existed with an SSH handle and an open channel; and the remote
-- path passed the check for the kind of the operation, in the scope of the host of the session
-- that the check found under the id by then, or in the global scope if it found none.
pub perform-Passed :
    (manager : SessionManager) (seen : List (Text × Session)) (files : LocalPaths) (id : Text)
    (opened : Result Sftp) (op : FileOp)
    → uses (perform manager seen files id opened op) ≡ true
    → Passed manager seen files id opened op
unfolding sftp_mkdir sftp_remove sftp_chmod sftp_transfer sftp_transfer_dir
perform-Passed manager seen files id opened (makes_dir remote mode) h =
    let (passed, t) =
      used_behind manager seen id opened remote RemoteOperation.create _ Unit
        (λ sftp used. ((checked-uses _ _ used).0, tt)) (open_sftp_for_session manager id opened)
        refl h in
    (tt, tt, passed)
perform-Passed manager seen files id opened (lists remote) h =
    (tt, tt, listed_behind manager seen id remote opened _ refl h)
perform-Passed manager seen files id opened (removes remote recursive) h =
    let (allowed, used) = checked-uses _ _ h in
    let (passed, t) =
      used_behind manager seen id opened remote RemoteOperation.delete _ Unit
        (λ sftp used. ((checked-uses _ _ used).0, tt)) (open_sftp_for_session manager id opened)
        refl used in
    (allowed, tt, passed)
perform-Passed manager seen files id opened (changes_mode remote mode) h =
    let (allowed, used) = checked-uses _ _ h in
    let (passed, t) =
      used_behind manager seen id opened remote RemoteOperation.chmod _ Unit
        (λ sftp used. ((checked-uses _ _ used).0, tt)) (open_sftp_for_session manager id opened)
        refl used in
    (allowed, tt, passed)
perform-Passed manager seen files id opened (transfers direction local remote) h =
    let (allowed, used) = checked-uses _ _ h in
    let (fits, passed) =
      transferred_behind manager seen files id opened _ direction local remote refl allowed h in
    (allowed, fits, passed)
perform-Passed manager seen files id opened (transfers_dir upload local remote) h =
    let (allowed, used) = checked-uses _ _ h in
    let (passed, fits) =
      used_behind manager seen id opened remote RemoteOperation.create _
        (check_local manager.path_policy files local ≡ ok tt)
        (λ sftp used. let (fits, rest) = checked-uses _ _ used in ((checked-uses _ _ rest).0, fits))
        (open_sftp_for_session manager id opened) refl used in
    (allowed, fits, passed)
perform-Passed manager seen files id opened (transfers_dir download local remote) h =
    let (allowed, used) = checked-uses _ _ h in
    let (passed, fits) =
      used_behind manager seen id opened remote RemoteOperation.read _
        (check_local manager.path_policy files local ≡ ok tt)
        (λ sftp used.
          let (passes, rest) = checked-uses _ _ used in (passes, (checked-uses _ _ rest).0))
        (open_sftp_for_session manager id opened) refl used in
    (allowed, fits, passed)
