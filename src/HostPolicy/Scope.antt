-- ===== src/HostPolicy/Scope.antt =====
-- src/application/host_policy.rs and src/application/path_policy.rs: the remote paths of a host,
-- and the check that they are the scope of.
use term_bridge.Prelude.{◌≡◌, refl, Bool, true, false, ◌||◌, Option, none, some, [], ◌∷◌}
use term_bridge.Text.{Text}
use term_bridge.PathPolicy.{
  PathPolicy, SftpCanonicalize, sftp_no_such_file, ok, err, check_remote_access, in_scope,
}
use term_bridge.PathPolicy.Lexical.{
  RemoteOperation, create, is_under_remote, expand_tilde, parent_remote_path,
}
use term_bridge.PathPolicy.Access.{HomeFor, Granted, existing, created, check_iff_Granted}
use term_bridge.HostPolicy.{
  HostPolicyConfig, FileContent, content_of, unreadable, load_from, allowed_remote_paths_for,
  corrupt_deny_all_scope,
}

-- The file is there and is no configuration.
pub data Broken (parse : Text → Option HostPolicyConfig) (file : FileContent) : Type 0 where
  not_readable : file ≡ unreadable → Broken parse file
  not_parsed :
      (content : Text) → file ≡ content_of content → parse content ≡ none → Broken parse file

-- The path itself, or the parent of one that is not there and is to be created, is resolved to one
-- under the scope that denies all.
pub data OnlySentinel (policy : PathPolicy) (path : Text) (op : RemoteOperation)
    (sftp : SftpCanonicalize) : Type 0 where
  the_target :
      (home : Option Text) (c : Text)
      → HomeFor policy path (some (corrupt_deny_all_scope ∷ [])) sftp home
      → sftp.canonicalize (expand_tilde path home) ≡ ok c
      → is_under_remote c corrupt_deny_all_scope ≡ true
      → OnlySentinel policy path op sftp
  its_parent :
      (home : Option Text) (parent c gone : Text)
      → HomeFor policy path (some (corrupt_deny_all_scope ∷ [])) sftp home
      → op ≡ create
      → sftp.canonicalize (expand_tilde path home) ≡ err (sftp_no_such_file gone)
      → parent_remote_path (expand_tilde path home) ≡ some parent
      → sftp.canonicalize parent ≡ ok c
      → is_under_remote c corrupt_deny_all_scope ≡ true
      → OnlySentinel policy path op sftp

sentinel_home :
    (home : Option Text) → expand_tilde corrupt_deny_all_scope home ≡ corrupt_deny_all_scope
unfolding expand_tilde
sentinel_home none = refl
sentinel_home (some home) = refl

or_false : (b : Bool) → (b || false) ≡ true → b ≡ true
or_false true h = refl
or_false false h = h

sentinel_scope :
    (policy : PathPolicy) (home : Option Text) (c : Text)
    → in_scope policy (some (corrupt_deny_all_scope ∷ [])) home c ≡ true
    → is_under_remote c corrupt_deny_all_scope ≡ true
sentinel_scope policy home c h =
    or_false (is_under_remote c corrupt_deny_all_scope) (rw (sentinel_home home) at h)

Granted-sentinel :
    (policy : PathPolicy) (path : Text) (op : RemoteOperation) (sftp : SftpCanonicalize)
    → Granted policy path op (some (corrupt_deny_all_scope ∷ [])) sftp
    → OnlySentinel policy path op sftp
Granted-sentinel policy path op sftp (existing home c hf pc (scope, safe)) =
    the_target home c hf pc (sentinel_scope policy home c scope)
Granted-sentinel policy path op sftp (created home parent c gone hf oc g pe pc (scope, safe) t) =
    its_parent home parent c gone hf oc g pe pc (sentinel_scope policy home c scope)

roots_of_bad_file :
    (parse : Text → Option HostPolicyConfig) (file : FileContent) (host : Text)
    → Broken parse file
    → allowed_remote_paths_for (load_from parse file) host ≡ some (corrupt_deny_all_scope ∷ [])
unfolding allowed_remote_paths_for load_from
roots_of_bad_file parse file host (not_readable e) = rw e refl
roots_of_bad_file parse file host (not_parsed content e fails) = rw e (rw fails refl)

-- Where `hosts.toml` is there and cannot be read or parsed, a remote access of any host passes
-- the check only if the server resolves the very path that was asked for, or, for a creation of
-- what it does not know, the parent of that path, to one under the scope that denies all.
pub load_from-fails_closed :
    (parse : Text → Option HostPolicyConfig) (file : FileContent) (host : Text)
    → (policy : PathPolicy) (path : Text) (op : RemoteOperation) (sftp : SftpCanonicalize)
    → Broken parse file
    → check_remote_access policy path op (allowed_remote_paths_for (load_from parse file) host) sftp
      ≡ ok tt
    → OnlySentinel policy path op sftp
load_from-fails_closed parse file host policy path op sftp broken passes =
    let passes' : check_remote_access policy path op (some (corrupt_deny_all_scope ∷ [])) sftp
        ≡ ok tt =
      rw (roots_of_bad_file parse file host broken) at passes in
    Granted-sentinel policy path op sftp
      ((check_iff_Granted policy path op (some (corrupt_deny_all_scope ∷ [])) sftp).0 passes').1
