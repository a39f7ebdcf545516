-- ===== src/PathPolicy/Safety.antt =====
-- The hard rules: what no change may reach, and how a relative path reaches it.
use term_bridge.Prelude.{◌≡◌, ◌≢◌, refl, true, false, Option, none, some, List, arith}
use term_bridge.Text.{Text, codes}
use term_bridge.PathPolicy.{
  sftp_no_such_file, ok, err, SftpCanonicalize, PathPolicy, in_scope, check_remote_access,
}
use term_bridge.PathPolicy.Access.{HomeFor, Granted, existing, created, check_iff_Granted}
use term_bridge.PathPolicy.Lexical.{
  RemoteOperation, read, write, create, delete, chmod, hard_safety_deny, is_authorized_keys,
  is_kernel_interface, expand_tilde, normalize_remote_path_lexical, parent_remote_path,
}

-- Without the suffix of a key file of SSH, and no path of the kernel's interfaces. A relative path
-- to a key file need not have that suffix.
abbrev pub Unprotected : Text → Type 0
Unprotected c = (is_authorized_keys c ≡ false) × (is_kernel_interface c ≡ false)

hard_safety-none :
    (c : Text) (op : RemoteOperation) → op ≢ read → hard_safety_deny c op ≡ none → Unprotected c
unfolding hard_safety_deny
hard_safety-none c read change h = absurd (change refl)
hard_safety-none c write change h = ground arith
hard_safety-none c create change h = ground arith
hard_safety-none c delete change h = ground arith
hard_safety-none c chmod change h = ground arith

-- What a change that passes the check is known to touch.
pub data Touches (policy : PathPolicy) (path : Text) (op : RemoteOperation)
    (host_roots : Option (List Text)) (sftp : SftpCanonicalize) : Type 0 where
  target :
      (home : Option Text) (c : Text)
      → HomeFor policy path host_roots sftp home
      → sftp.canonicalize (expand_tilde path home) ≡ ok c
      → Unprotected c
      → in_scope policy host_roots home c ≡ true
      → Touches policy path op host_roots sftp
  new_in :
      (home : Option Text) (parent c gone : Text)
      → HomeFor policy path host_roots sftp home
      → op ≡ create
      → sftp.canonicalize (expand_tilde path home) ≡ err (sftp_no_such_file gone)
      → parent_remote_path (expand_tilde path home) ≡ some parent
      → sftp.canonicalize parent ≡ ok c
      → Unprotected c
      → in_scope policy host_roots home c ≡ true
      → Unprotected (normalize_remote_path_lexical (expand_tilde path home))
      → Touches policy path op host_roots sftp

-- A write, creation, deletion or chmod that passes the check has a resolved target in scope, or
-- is a creation of what the server does not know with a resolved parent in scope. Neither the
-- resolved path nor, for such a creation, the normal form of the asked one, which is relative
-- for a relative path, ends in `/.ssh/authorized_keys` or `/.ssh/authorized_keys2` or is `/proc`
-- or `/sys` or below them.
pub change-Touches :
    (policy : PathPolicy) (path : Text) (op : RemoteOperation) (host_roots : Option (List Text))
    (sftp : SftpCanonicalize)
    → op ≢ read
    → check_remote_access policy path op host_roots sftp ≡ ok tt
    → Touches policy path op host_roots sftp
change-Touches policy path op host_roots sftp change passes =
    touched ((check_iff_Granted policy path op host_roots sftp).0 passes).1
  where
    touched : Granted policy path op host_roots sftp → Touches policy path op host_roots sftp
    touched (existing home c hf pc (s, d)) = target home c hf pc (hard_safety-none c op change d) s
    touched (created home parent c gone hf oc g pe pc (s, d) t) =
        new_in home parent c gone hf oc g pe pc (hard_safety-none c op change d) s
          (hard_safety-none _ op change t)

abbrev pub key_file : Text
key_file = codes ".ssh/authorized_keys"

abbrev pub key_directory : Text
key_directory = codes ".ssh"

key_file_free : hard_safety_deny (normalize_remote_path_lexical key_file) create ≡ none
unfolding hard_safety_deny normalize_remote_path_lexical
key_file_free = refl

key_file-parent : parent_remote_path key_file ≡ some key_directory
unfolding parent_remote_path
key_file-parent = refl

key_file-expand : (home : Option Text) → expand_tilde key_file home ≡ key_file
unfolding expand_tilde
key_file-expand none = refl
key_file-expand (some home) = refl

-- Where the account has a `.ssh` in scope and no `authorized_keys` yet, creating the file by its
-- path relative to the home directory passes the check.
pub relative_key_file_passes :
    (policy : PathPolicy) (host_roots : Option (List Text)) (sftp : SftpCanonicalize)
    (home : Option Text) (c gone : Text)
    → HomeFor policy key_file host_roots sftp home
    → sftp.canonicalize key_file ≡ err (sftp_no_such_file gone)
    → sftp.canonicalize key_directory ≡ ok c
    → in_scope policy host_roots home c ≡ true
    → Unprotected c
    → check_remote_access policy key_file create host_roots sftp ≡ ok tt
relative_key_file_passes policy host_roots sftp home c gone hf g pc s u =
    (check_iff_Granted policy key_file create host_roots sftp).1 (
      refl,
      created home key_directory c gone hf refl (rw (key_file-expand home) g)
          (rw (key_file-expand home) key_file-parent) pc (s, free c u)
          (rw (key_file-expand home) key_file_free),
    )
  where
    free : (c : Text) → Unprotected c → hard_safety_deny c create ≡ none
    free c (a, k) = unfold hard_safety_deny in rw (a, k) refl
