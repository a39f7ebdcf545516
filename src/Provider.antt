-- ===== src/Provider.antt =====
-- src/domain/provider.rs: the requests to a terminal, the errors with their codes, and what an
-- SFTP channel answers. An error's message is a text, or the data that it is built from.
pub mod Codes
use term_bridge.Prelude.{
  ℕ, Bool, true, false, Option, none, some, List, [], ◌∷◌, ◌+◌, ◌-◌, ◌&&◌, ◌||◌, leb, if◌then◌else◌,
  map,
}
use term_bridge.Text.{Text, codes, eq_text}
use term_bridge.PathPolicy.Lexical.{Reason}

pub record PtySize : Type 0 where
  pub rows : ℕ
  pub cols : ℕ

abbrev pub default_pty_size : PtySize
default_pty_size = record { rows = 24; cols = 80 }

pub data ControlKey : Type 0 where
  ctrl_c ctrl_d ctrl_z tab enter escape : ControlKey

pub data TransferDirection : Type 0 where
  upload download : TransferDirection

-- Why a remote path is refused.
pub data Denial : Type 0 where
  null_byte no_home no_parent out_of_scope : Denial
  hard_safety : Reason → Denial

pub data TermError : Type 0 where
  auth_failed io : TermError
  connect_failed session_not_found session_closed : Text → TermError
  operation_timeout : Text → Option Text → TermError
  host_key_rejected channel_error invalid_argument : Text → TermError
  sftp_error sftp_no_such_file sftp_permission_denied local_path_not_allowed : Text → TermError
  remote_path_not_allowed : Denial → TermError
  policy_denied policy_needs_confirm session_detached : Text → TermError
  daemon_protocol_mismatch : ℕ → ℕ → TermError
  runtime_missing runtime_deploy_failed : Text → TermError

pub data Result (A : Type 0) : Type 0 where
  ok : A → Result A
  err : TermError → Result A

pub record SftpCanonicalize : Type 0 where
  pub home : Option Text
  pub canonicalize : Text → Result Text

abbrev pub to_ascii_lowercase : Text → Text
to_ascii_lowercase s = map (λ c. if leb b'A' c && leb c b'Z' then c + 32 else c) s

-- `ControlKey::as_bytes`
unfoldable pub key_bytes : ControlKey → List ℕ
key_bytes ctrl_c = 3 ∷ []
key_bytes ctrl_d = 4 ∷ []
key_bytes ctrl_z = 0x1A ∷ []
key_bytes tab = 9 ∷ []
key_bytes enter = 13 ∷ []
key_bytes escape = 0x1B ∷ []

-- `ControlKey::as_name`
unfoldable pub key_name : ControlKey → Text
key_name ctrl_c = codes "ctrl+c"
key_name ctrl_d = codes "ctrl+d"
key_name ctrl_z = codes "ctrl+z"
key_name tab = codes "tab"
key_name enter = codes "enter"
key_name escape = codes "escape"

abbrev any_of : Text → Text → Text → Bool
any_of n a b = eq_text n a || eq_text n b

-- `ControlKey::from_name`
unfoldable pub key_from_name : Text → Option ControlKey
key_from_name name =
    let n = to_ascii_lowercase name in
    if any_of n (codes "ctrl+c") (codes "c")
    then some ctrl_c
    else if any_of n (codes "ctrl+d") (codes "d")
    then some ctrl_d
    else if any_of n (codes "ctrl+z") (codes "z")
    then some ctrl_z
    else if eq_text n (codes "tab")
    then some tab
    else if eq_text n (codes "enter")
    then some enter
    else if any_of n (codes "escape") (codes "esc")
    then some escape
    else none

-- `TransferDirection::as_str`
unfoldable pub direction_name : TransferDirection → Text
direction_name upload = codes "upload"
direction_name download = codes "download"

-- `TransferDirection::from_name`
unfoldable pub direction_from_name : Text → Option TransferDirection
direction_from_name name =
    let n = to_ascii_lowercase name in
    if eq_text n (codes "upload")
    then some upload
    else if eq_text n (codes "download")
    then some download
    else none

-- `TermError::code`
unfoldable pub code : TermError → Text
code auth_failed = codes "AUTH_FAILED"
code (session_not_found s) = codes "SESSION_NOT_FOUND"
code (session_closed s) = codes "SESSION_CLOSED"
code (connect_failed s) = codes "CONNECT_FAILED"
code (operation_timeout s i) = codes "OPERATION_TIMEOUT"
code (channel_error s) = codes "CONNECT_FAILED"
code (host_key_rejected s) = codes "HOST_KEY_REJECTED"
code (invalid_argument s) = codes "INVALID_ARGUMENT"
code (sftp_error s) = codes "SFTP_ERROR"
code (sftp_no_such_file s) = codes "SFTP_NO_SUCH_FILE"
code (sftp_permission_denied s) = codes "SFTP_PERMISSION_DENIED"
code (local_path_not_allowed s) = codes "LOCAL_PATH_NOT_ALLOWED"
code (remote_path_not_allowed d) = codes "REMOTE_PATH_NOT_ALLOWED"
code (policy_denied s) = codes "POLICY_DENIED"
code (policy_needs_confirm s) = codes "POLICY_NEEDS_CONFIRM"
code (session_detached s) = codes "SESSION_DETACHED"
code (daemon_protocol_mismatch c d) = codes "PROTOCOL_MISMATCH"
code (runtime_missing s) = codes "RUNTIME_MISSING"
code (runtime_deploy_failed s) = codes "RUNTIME_DEPLOY_FAILED"
code io = codes "CONNECT_FAILED"

-- `TermError::retriable`
unfoldable pub retriable : TermError → Bool
retriable auth_failed = false
retriable (session_not_found s) = false
retriable (session_closed s) = false
retriable (host_key_rejected s) = false
retriable (invalid_argument s) = false
retriable (local_path_not_allowed s) = false
retriable (remote_path_not_allowed d) = false
retriable (policy_denied s) = false
retriable (policy_needs_confirm s) = false
retriable (sftp_no_such_file s) = false
retriable (sftp_permission_denied s) = false
retriable (session_detached s) = false
retriable (daemon_protocol_mismatch c d) = false
retriable (runtime_deploy_failed s) = false
retriable (connect_failed s) = true
retriable (operation_timeout s i) = true
retriable (channel_error s) = true
retriable (sftp_error s) = true
retriable (runtime_missing s) = true
retriable io = true
