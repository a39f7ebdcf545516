-- ===== src/Examples/OfHosts.antt =====
-- A `hosts.toml` that does not parse.
use term_bridge.Prelude.{◌≡◌, refl, Option, none, [], ◌∷◌}
use term_bridge.Text.{Text, codes}
use term_bridge.PathPolicy.{
  PathPolicy, SftpCanonicalize, ok, check_remote_access, check_scope_and_safety,
}
use term_bridge.PathPolicy.Lexical.{read, is_under_remote, expand_tilde, hard_safety_deny}
use term_bridge.HostPolicy.{
  HostPolicyConfig, FileContent, content_of, load_from, allowed_remote_paths_for,
  corrupt_deny_all_scope,
}
use term_bridge.HostPolicy.Scope.{not_parsed, OnlySentinel, load_from-fails_closed}

abbrev parse : Text → Option HostPolicyConfig
parse content = none

abbrev file : FileContent
file = content_of (codes "[hosts")

abbrev everywhere : PathPolicy
everywhere = record { allowed_local_paths = []; allowed_remote_paths = codes "/" ∷ [] }

abbrev channel : SftpCanonicalize
channel = record { home = none; canonicalize = λ path. ok path }

sentinel-passes :
    check_remote_access everywhere corrupt_deny_all_scope read
      (allowed_remote_paths_for (load_from parse file) (codes "prod"))
      channel
    ≡ ok tt
unfolding check_remote_access expand_tilde check_scope_and_safety is_under_remote hard_safety_deny
    allowed_remote_paths_for load_from
sentinel-passes = refl

load_from-fails_closed_example : OnlySentinel everywhere corrupt_deny_all_scope read channel
load_from-fails_closed_example =
    load_from-fails_closed parse file (codes "prod") everywhere corrupt_deny_all_scope read channel
      (not_parsed (codes "[hosts") refl refl) sentinel-passes
