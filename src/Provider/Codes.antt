-- ===== src/Provider/Codes.antt =====
-- The codes of the errors and the names of the requests, as a client sees them.
use term_bridge.Prelude.{◌≡◌, refl, some, List, [], ◌∷◌}
use term_bridge.Text.{Text, codes, eq_text, any}
use term_bridge.Provider.{
  ControlKey, ctrl_c, ctrl_d, ctrl_z, tab, enter, escape, TransferDirection, upload, download,
  TermError, code, retriable, key_name, key_from_name, direction_name, direction_from_name,
}

-- The codes that tell a client to try again.
abbrev pub retry_codes : List Text
retry_codes =
    codes "CONNECT_FAILED"
    ∷ (codes "OPERATION_TIMEOUT" ∷ (codes "SFTP_ERROR" ∷ (codes "RUNTIME_MISSING" ∷ [])))

pub code-retriable : (e : TermError) → retriable e ≡ any (eq_text (code e)) retry_codes
unfolding code retriable
code-retriable TermError.auth_failed = refl
code-retriable e = refl

pub names_read_back :
    (key : ControlKey) (direction : TransferDirection)
    → (key_from_name (key_name key) ≡ some key)
      × (direction_from_name (direction_name direction) ≡ some direction)
unfolding key_from_name key_name direction_from_name direction_name
names_read_back key direction = (key_back key, direction_back direction)
  where
    key_back : (key : ControlKey) → key_from_name (key_name key) ≡ some key
    key_back ctrl_c = refl
    key_back ctrl_d = refl
    key_back ctrl_z = refl
    key_back tab = refl
    key_back enter = refl
    key_back escape = refl

    direction_back :
        (direction : TransferDirection)
        → direction_from_name (direction_name direction) ≡ some direction
    direction_back upload = refl
    direction_back download = refl
