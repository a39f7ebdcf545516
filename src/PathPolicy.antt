-- ===== src/PathPolicy.antt =====
-- src/application/path_policy.rs: the lexical path functions and the checks of remote paths.
-- The SFTP channel (the trait `SftpCanonicalize`) is a parameter: what `home` and `canonicalize`
-- answer, and so are the local file system and the paths of std. An error's message is the data that it is built from.
pub mod Lexical
pub mod Access
pub mod Safety
use term_bridge.Prelude.{
  ℕ, Bool, true, false, not, ◌&&◌, ◌||◌, Option, none, some, List, [], ◌∷◌, ◌++◌, map,
  if◌then◌else◌,
}
use term_bridge.Text.{Text, any, contains_char, eq_text}
pub use term_bridge.Provider.{
  Denial, null_byte, no_home, no_parent, out_of_scope, hard_safety, TermError,
  remote_path_not_allowed, sftp_no_such_file, local_path_not_allowed, Result, ok, err,
  SftpCanonicalize,
}
use Lexical.{
  RemoteOperation, create, Reason, hard_safety_deny, is_under_remote, expand_tilde,
  normalize_remote_path_lexical, parent_remote_path, tilde,
}

-- The paths and the file system of std: a path as its components.
pub record LocalPaths : Type 0 where
  pub canonicalize : Text → Option (List Text)
  pub components : Text → List Text
  pub parent : Text → Option Text

pub record PathPolicy : Type 0 where
  pub allowed_local_paths : List (List Text)
  pub allowed_remote_paths : List Text

abbrev or_components : LocalPaths → Text → Option (List Text) → List Text
or_components files p none = files.components p
or_components files p (some canonical) = canonical

abbrev or_everywhere : List Text → List Text
or_everywhere [] = (b'/' ∷ []) ∷ []
or_everywhere (root ∷ roots) = root ∷ roots

-- `PathPolicy::new`
unfoldable pub new : LocalPaths → List Text → List Text → PathPolicy
new files allowed_local_paths allowed_remote_paths = record {
  allowed_local_paths = map (λ p. or_components files p (files.canonicalize p)) allowed_local_paths;
  allowed_remote_paths = or_everywhere allowed_remote_paths;
}

-- `Path::starts_with` compares components.
abbrev pub path_starts_with : List Text → List Text → Bool
path_starts_with path [] = true
path_starts_with [] (r ∷ root) = false
path_starts_with (c ∷ path) (r ∷ root) = eq_text c r && path_starts_with path root

unfoldable pub check_canonical_under_any : List Text → List (List Text) → Text → Result (Unit {0})
check_canonical_under_any canonical [] original = err (local_path_not_allowed original)
check_canonical_under_any canonical (root ∷ allowed) original =
    let rest = check_canonical_under_any canonical allowed original in
    if path_starts_with canonical root then ok tt else rest

-- A path that does not exist is judged by its parent.
abbrev pub check_local_parent : PathPolicy → LocalPaths → Text → Option Text → Result (Unit {0})
check_local_parent policy files path none = err (local_path_not_allowed path)
check_local_parent policy files path (some parent) = elim (files.canonicalize parent) [
  | none ↦ err (local_path_not_allowed path)
  | some canonical ↦ check_canonical_under_any canonical policy.allowed_local_paths path
]

unfoldable pub check_local : PathPolicy → LocalPaths → Text → Result (Unit {0})
unfolding check_canonical_under_any
check_local policy files path =
    let found : Result (Unit {0}) = elim (files.canonicalize path) [
      | none ↦ check_local_parent policy files path (files.parent path)
      | some canonical ↦ check_canonical_under_any canonical policy.allowed_local_paths path
    ] in
    if contains_char 0 path then err (local_path_not_allowed path) else found

-- The roots of the host if it has any, or else the global ones, with `~` expanded.
abbrev pub effective : PathPolicy → Option (List Text) → Option Text → List Text
effective policy (some (root ∷ roots)) home = map (λ r. expand_tilde r home) (root ∷ roots)
effective policy (some []) home = map (λ r. expand_tilde r home) policy.allowed_remote_paths
effective policy none home = map (λ r. expand_tilde r home) policy.allowed_remote_paths

abbrev pub in_scope : PathPolicy → Option (List Text) → Option Text → Text → Bool
in_scope policy host_roots home canonical =
    any (is_under_remote canonical) (effective policy host_roots home)

abbrev pub refused_by : Option Reason → Result (Unit {0})
refused_by none = ok tt
refused_by (some reason) = err (remote_path_not_allowed (hard_safety reason))

unfoldable pub check_scope_and_safety :
    PathPolicy → Text → RemoteOperation → Option (List Text) → Option Text → Result (Unit {0})
check_scope_and_safety policy canonical op host_roots home =
    if in_scope policy host_roots home canonical
    then refused_by (hard_safety_deny canonical op)
    else err (remote_path_not_allowed out_of_scope)

abbrev pub needs_home : PathPolicy → Text → Option (List Text) → Bool
needs_home policy path none =
    contains_char tilde path || any (contains_char tilde) policy.allowed_remote_paths
needs_home policy path (some roots) =
    contains_char tilde path
    || (any (contains_char tilde) roots || any (contains_char tilde) policy.allowed_remote_paths)

abbrev pub is_create : RemoteOperation → Bool
is_create create = true
is_create _ = false

abbrev pub then_also : Result (Unit {0}) → Result (Unit {0}) → Result (Unit {0})
then_also (ok _) next = next
then_also (err e) next = err e

-- The parent's canonical path decides the scope, the literal target the hard safety.
abbrev pub check_parent :
    PathPolicy
    → Text
    → RemoteOperation
    → Option (List Text)
    → Option Text
    → Result Text
    → Result (Unit {0})
check_parent policy expanded op host_roots home (err e) = err e
check_parent policy expanded op host_roots home (ok parent_canonical) =
    then_also (check_scope_and_safety policy parent_canonical op host_roots home)
      (refused_by (hard_safety_deny (normalize_remote_path_lexical expanded) op))

-- The target of a Create does not exist.
abbrev pub check_new :
    PathPolicy
    → SftpCanonicalize
    → Text
    → RemoteOperation
    → Option (List Text)
    → Option Text
    → Option Text
    → Result (Unit {0})
check_new policy sftp expanded op host_roots home none = err (remote_path_not_allowed no_parent)
check_new policy sftp expanded op host_roots home (some parent) =
    check_parent policy expanded op host_roots home (sftp.canonicalize parent)

-- `match sftp.canonicalize(&expanded).await`.
abbrev pub check_canonical :
    PathPolicy
    → SftpCanonicalize
    → Text
    → RemoteOperation
    → Option (List Text)
    → Option Text
    → Result Text
    → Result (Unit {0})
check_canonical policy sftp expanded op host_roots home (ok canonical) =
    check_scope_and_safety policy canonical op host_roots home
check_canonical policy sftp expanded op host_roots home (err (sftp_no_such_file p)) =
    if is_create op
    then check_new policy sftp expanded op host_roots home (parent_remote_path expanded)
    else err (sftp_no_such_file p)
check_canonical policy sftp expanded op host_roots home (err e) = err e

-- The path with its home, once that is known to be resolved where it is needed.
abbrev pub check_with_home :
    PathPolicy
    → SftpCanonicalize
    → Text
    → RemoteOperation
    → Option (List Text)
    → Option Text
    → Result (Unit {0})
check_with_home policy sftp path op host_roots home =
    let expanded = expand_tilde path home in
    check_canonical policy sftp expanded op host_roots home (sftp.canonicalize expanded)

abbrev pub check_home :
    PathPolicy
    → SftpCanonicalize
    → Text
    → RemoteOperation
    → Option (List Text)
    → Option Text
    → Result (Unit {0})
check_home policy sftp path op host_roots none = err (remote_path_not_allowed no_home)
check_home policy sftp path op host_roots (some home) =
    check_with_home policy sftp path op host_roots (some home)

unfoldable pub check_remote_access :
    PathPolicy → Text → RemoteOperation → Option (List Text) → SftpCanonicalize → Result (Unit {0})
check_remote_access policy path op host_roots sftp =
    if contains_char 0 path
    then err (remote_path_not_allowed null_byte)
    else if needs_home policy path host_roots
    then check_home policy sftp path op host_roots sftp.home
    else check_with_home policy sftp path op host_roots none

unfoldable pub check_remote : PathPolicy → Text → SftpCanonicalize → Result (Unit {0})
unfolding check_remote_access
check_remote policy path sftp = check_remote_access policy path RemoteOperation.read none sftp

unfoldable pub check_remote_allow_new : PathPolicy → Text → SftpCanonicalize → Result (Unit {0})
unfolding check_remote_access
check_remote_allow_new policy path sftp = check_remote_access policy path create none sftp
