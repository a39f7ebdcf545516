-- ===== src/HostPolicy.antt =====
-- src/application/host_policy.rs: what `hosts.toml` says of a host, and what holds for it in the
-- end. Reading the file and parsing it as TOML are parameters; log calls are left out.
pub mod Scope
use term_bridge.Prelude.{
  Bool, true, false, not, ◌&&◌, ◌||◌, Option, none, some, List, [], ◌∷◌, map, if◌then◌else◌,
}
use term_bridge.Text.{Text, codes, eq_text}
use term_bridge.Table.{lookup}

pub data AuthMode : Type 0 where
  key password auto : AuthMode

pub data SessionMode : Type 0 where
  standard persistent : SessionMode

unfoldable pub session_mode_from : Bool → SessionMode
session_mode_from true = persistent
session_mode_from false = standard

-- The `Display` of both.
unfoldable pub auth_mode_name : AuthMode → Text
auth_mode_name key = codes "key"
auth_mode_name password = codes "password"
auth_mode_name auto = codes "auto"

unfoldable pub session_mode_name : SessionMode → Text
session_mode_name standard = codes "standard"
session_mode_name persistent = codes "persistent"

pub record HostPolicy : Type 0 where
  pub auth : Option AuthMode
  pub session : Option SessionMode
  pub allowed_remote_paths : Option (List Text)

pub record HostPolicyConfig : Type 0 where
  pub hosts : List (Text × HostPolicy)

pub record ResolvedPolicy : Type 0 where
  pub auth : AuthMode
  pub session : SessionMode

abbrev pub default_policy : ResolvedPolicy
default_policy = record { auth = auto; session = standard }

abbrev pub corrupt_deny_all_scope : Text
corrupt_deny_all_scope = codes "/__termbridge_host_policy_corrupt_deny_all__"

pub record HostPolicyResolver : Type 0 where
  pub config : HostPolicyConfig
  pub corrupt : Bool

abbrev empty_config : HostPolicyConfig
empty_config = record { hosts = [] }

-- What reading the file answers.
pub data FileContent : Type 0 where
  content_of : Text → FileContent
  not_found unreadable : FileContent

abbrev pub parsed_or_corrupt : Option HostPolicyConfig → HostPolicyResolver
parsed_or_corrupt none = record { config = empty_config; corrupt = true }
parsed_or_corrupt (some cfg) = record { config = cfg; corrupt = false }

-- `parse` is `toml::from_str`.
unfoldable pub load_from : (Text → Option HostPolicyConfig) → FileContent → HostPolicyResolver
load_from parse not_found = record { config = empty_config; corrupt = false }
load_from parse unreadable = record { config = empty_config; corrupt = true }
load_from parse (content_of content) = parsed_or_corrupt (parse content)

unfoldable pub empty_resolver : HostPolicyResolver
empty_resolver = record { config = empty_config; corrupt = false }

unfoldable pub with_config : HostPolicyConfig → HostPolicyResolver
with_config config = record { config = config; corrupt = false }

unfoldable pub is_corrupt : HostPolicyResolver → Bool
is_corrupt resolver = resolver.corrupt

abbrev pub or_else {ℓ} : {A : Type ℓ} → Option A → Option A → Option A
or_else none other = other
or_else (some a) other = some a

abbrev pub and_then {ℓ κ} : {A : Type ℓ} {B : Type κ} → Option A → (A → Option B) → Option B
and_then none f = none
and_then (some a) f = f a

abbrev pub unwrap_or {ℓ} : {A : Type ℓ} → Option A → A → A
unwrap_or none default = default
unwrap_or (some a) default = a

unfoldable pub resolve :
    HostPolicyResolver → Text → Option AuthMode → Option SessionMode → ResolvedPolicy
resolve resolver host_alias explicit_auth explicit_session =
    let host_policy = lookup host_alias resolver.config.hosts in
    record {
      auth =
          unwrap_or (or_else explicit_auth (and_then host_policy (λ p. p.auth)))
            default_policy.auth;
      session =
          unwrap_or (or_else explicit_session (and_then host_policy (λ p. p.session)))
            default_policy.session;
    }

unfoldable pub get_host_policy : HostPolicyResolver → Text → Option HostPolicy
get_host_policy resolver host_alias = lookup host_alias resolver.config.hosts

unfoldable pub allowed_remote_paths_for : HostPolicyResolver → Text → Option (List Text)
allowed_remote_paths_for resolver host_alias =
    if resolver.corrupt
    then some (corrupt_deny_all_scope ∷ [])
    else and_then (lookup host_alias resolver.config.hosts) (λ p. p.allowed_remote_paths)

unfoldable pub list_configured_hosts : HostPolicyResolver → List Text
list_configured_hosts resolver = map (λ row. row.0) resolver.config.hosts

abbrev policy_key : Text → Bool
policy_key k = eq_text k (codes "auth") || eq_text k (codes "session")

-- The keys of a host's table that are no policy fields.
abbrev bad_keys : List Text → List Text
bad_keys [] = []
bad_keys (k ∷ keys) = let rest = bad_keys keys in if policy_key k then rest else k ∷ rest

abbrev warned_of : List (Text × Option (List Text)) → List (Text × List Text)
warned_of [] = []
warned_of ((alias, none) ∷ rows) = warned_of rows
warned_of ((alias, some keys) ∷ rows) = elim (bad_keys keys) [
  | [] ↦ warned_of rows
  | bad ∷ more ↦ (alias, bad ∷ more) ∷ warned_of rows
]

-- The hosts that `warn_on_nested_dotted_host_keys` warns of, with the keys that it names: of the
-- table `hosts`, if the content parses and has one, each alias comes with the keys of its entry,
-- if that is a table.
unfoldable pub warn_on_nested_dotted_host_keys :
    Option (List (Text × Option (List Text))) → List (Text × List Text)
warn_on_nested_dotted_host_keys none = []
warn_on_nested_dotted_host_keys (some hosts) = warned_of hosts
