-- ===== src/Sessions/Opening.antt =====
-- src/application/sessions.rs: how sessions come to the manager and go from it without a close.
-- `sshconfig::resolve`, the credential provider and the terminal provider are parameters; what is
-- asked of them is kept in its order, with `username_store::remember`.
-- The text of an `InvalidArgument` is shortened.
use term_bridge.Prelude.{ℕ, Bool, true, false, Option, none, some, List, [], ◌∷◌, ◌++◌}
use term_bridge.Text.{Text, codes}
use term_bridge.Provider.{
  PtySize, default_pty_size, TermError, auth_failed, invalid_argument, Result, ok, err,
}
use term_bridge.HostPolicy.{
  AuthMode, key, password, auto, SessionMode, standard, persistent, session_mode_from, resolve,
  unwrap_or,
}
use term_bridge.Session.{HandleKind, persistent_handle, Clock, new_session}
use term_bridge.Sessions.{SessionManager, put, take_out, get_session, next_session_id}

pub record Host : Type 0 where
  pub name : Text
  pub hostname : Text
  pub port : ℕ
  pub user : Text

pub data CredentialError : Type 0 where
  cancelled timeout : CredentialError
  helper_failed unsupported : Text → CredentialError

pub record PasswordCredential : Type 0 where
  pub secret : Text
  pub user : Option Text

pub data CredentialReply : Type 0 where
  given : PasswordCredential → CredentialReply
  refused : CredentialError → CredentialReply

pub record OpenTerminalRequest : Type 0 where
  pub host : Host
  pub pty_size : PtySize
  pub persistent : Bool
  pub name : Option Text
  pub password : Option Text

pub record Environment : Type 0 where
  pub resolve_host : Text → Result Host
  pub request_password : Text → Text → CredentialReply
  pub open_terminal : OpenTerminalRequest → Result HandleKind
  -- `attach_remote_session` of a persistent provider; none for any other.
  pub attach : Option (Host → Text → Result HandleKind)

pub data Asked : Type 0 where
  asked_config : Text → Asked
  asked_password : (hostname user : Text) → Asked
  asked_open : OpenTerminalRequest → Asked
  remembered : (hostname user : Text) → Asked

pub record Opened : Type 0 where
  pub manager : SessionManager
  pub asked : List Asked
  pub result : Result Text

unfoldable pub resolve_auth_mode : SessionManager → Text → AuthMode
resolve_auth_mode manager host_alias = (resolve manager.host_policy host_alias none none).auth

abbrev map_option {ℓ κ} : {A : Type ℓ} {B : Type κ} → (A → B) → Option A → Option B
map_option f none = none
map_option f (some a) = some (f a)

unfoldable pub resolve_session_mode : SessionManager → Text → Option Bool → SessionMode
resolve_session_mode manager host_alias explicit =
    (resolve manager.host_policy host_alias none (map_option session_mode_from explicit)).session

unfoldable pub validate_auth_session_combo : AuthMode → SessionMode → Result Unit
validate_auth_session_combo password persistent =
    err (invalid_argument (codes "auth=password with session=persistent is not supported"))
validate_auth_session_combo password standard = ok tt
validate_auth_session_combo key mode = ok tt
validate_auth_session_combo auto mode = ok tt

abbrev credential_error : CredentialError → TermError
credential_error cancelled = auth_failed
credential_error timeout = auth_failed
credential_error (helper_failed msg) = invalid_argument msg
credential_error (unsupported msg) = invalid_argument msg

unfoldable pub request_password : Environment → Host → Result PasswordCredential
request_password env host = elim (env.request_password host.hostname host.user) [
  | given credential ↦ ok credential
  | refused e ↦ err (credential_error e)
]

-- A new session for the handle, under a new id.
abbrev pub add_session :
    SessionManager → Clock → Text → PtySize → HandleKind → SessionManager × Text
add_session manager now host pty_size handle =
    let (id, manager') = next_session_id manager in
    (put manager' id (new_session now id host pty_size handle), id)

abbrev pub is_persistent : SessionMode → Bool
is_persistent persistent = true
is_persistent standard = false

abbrev pub if_password : AuthMode → List Asked → List Asked
if_password password asked = asked
if_password key asked = []
if_password auto asked = []

-- From the call of the provider on; `asked` came before.
abbrev pub open_with :
    SessionManager → Environment → Clock → AuthMode → List Asked → OpenTerminalRequest → Opened
open_with manager env now method asked request =
    let asked' = asked ++ (asked_open request ∷ []) in
    elim (env.open_terminal request) [
      | err e ↦ record { manager = manager; asked = asked'; result = err e }
      | ok handle ↦
          let (manager', id) = add_session manager now request.host.name request.pty_size handle in
          record {
            manager = manager';
            asked =
                asked'
                ++ if_password method (remembered request.host.hostname request.host.user ∷ []);
            result = ok id;
          }
    ]

abbrev pub open_resolved :
    SessionManager
    → Environment
    → Clock
    → AuthMode
    → List Asked
    → PtySize
    → Bool
    → Option Text
    → Host
    → Opened
open_resolved manager env now password asked pty_size persistent_session name host =
    let asked' = asked ++ (asked_password host.hostname host.user ∷ []) in
    elim (request_password env host) [
      | err e ↦ record { manager = manager; asked = asked'; result = err e }
      | ok credential ↦ open_with manager env now password asked' (record {
        host = record host { user = unwrap_or credential.user host.user };
        pty_size = pty_size;
        persistent = persistent_session;
        name = name;
        password = some credential.secret;
      })
    ]
open_resolved manager env now method asked pty_size persistent_session name host =
    open_with manager env now method asked (record {
      host = host;
      pty_size = pty_size;
      persistent = persistent_session;
      name = name;
      password = none;
    })

unfoldable pub open_session :
    SessionManager
    → Environment
    → Clock
    → Text
    → Option PtySize
    → Option Bool
    → Option Text
    → Opened
unfolding request_password
open_session manager env now host_alias pty_size explicit name =
    let mode = resolve_session_mode manager host_alias explicit in
    let method = resolve_auth_mode manager host_alias in
    elim (validate_auth_session_combo method mode) [
      | err e ↦ record { manager = manager; asked = []; result = err e }
      | ok _ ↦ elim (env.resolve_host host_alias) [
        | err e ↦ record { manager = manager; asked = asked_config host_alias ∷ []; result = err e }
        | ok host ↦
            open_resolved manager env now method (asked_config host_alias ∷ [])
              (unwrap_or pty_size default_pty_size) (is_persistent mode) name host
      ]
    ]

abbrev pub attached :
    SessionManager → Clock → Host → Result HandleKind → SessionManager × Result Text
attached manager now host (err e) = (manager, err e)
attached manager now host (ok handle) =
    let (manager', id) = add_session manager now host.name default_pty_size handle in
    (manager', ok id)

unfoldable pub attach_remote_session :
    SessionManager → Environment → Clock → Text → Text → SessionManager × Result Text
attach_remote_session manager env now host_alias remote_session_id =
    elim (env.resolve_host host_alias) [
      | err e ↦ (manager, err e)
      | ok host ↦ elim env.attach [
        | none ↦ (
          manager,
          err (invalid_argument (codes "attach_remote_session requires persistent provider")),
        )
        | some attach ↦ attached manager now host (attach host remote_session_id)
      ]
    ]

-- `reply` is that of the persistent handle's `detach`.
abbrev pub detach_on :
    SessionManager → Text → HandleKind → Result Unit → SessionManager × Result Unit
detach_on manager id persistent_handle (ok _) = (take_out manager id, ok tt)
detach_on manager id persistent_handle (err e) = (manager, err e)
detach_on manager id kind reply =
    (manager, err (invalid_argument (codes "session does not support detach")))

unfoldable pub detach_session : SessionManager → Text → Result Unit → SessionManager × Result Unit
detach_session manager id reply = elim (get_session manager id) [
  | err e ↦ (manager, err e)
  | ok session ↦ detach_on manager id session.handle reply
]
