-- ===== src/Sessions/Reason.antt =====
-- src/application/sessions.rs: the texts of `policy_reason`, and `truncate_for_log`.
use term_bridge.Prelude.{ℕ, List, [], ◌∷◌, ◌++◌, length, take, ltb, ◌==◌, if◌then◌else◌}
use term_bridge.Text.{Text, codes, eq_text}
use term_bridge.Utf8.{from_utf8_lossy}
use term_bridge.Provider.{direction_name}
use term_bridge.Policy.Lines.{lines, trim, is_empty}
use term_bridge.Policy.Rules.{Action}

abbrev pub shorten : ℕ → ℕ → Text → Text
shorten limit kept s = if ltb limit (length s) then take kept s ++ codes "..." else s

-- The first line that is not blank, or nothing.
abbrev first_line : List Text → Text
first_line [] = []
first_line (l ∷ ls) = let rest = first_line ls in if is_empty (trim l) then rest else l

abbrev advice : Text
advice =
    codes "\n\nTermBridge cannot auto-confirm in current mode.\n"
    ++ (codes "Options:\n"
        ++ (codes "1. Use `sudo -n` for non-interactive sudo (auto-passthrough)\n"
            ++ (codes
                  "2. Ask the user to approve unrestricted session via `termbridge session approve <session_id>`\n"
                ++ codes "3. Execute the command manually in the target terminal")))

unfoldable pub policy_reason : Action → Text → Text
policy_reason (Action.send_input id data_in) status =
    let snippet = shorten 80 77 (trim (first_line (lines data_in))) in
    if eq_text status (codes "needs confirmation")
    then codes "command needs confirmation: " ++ (snippet ++ advice)
    else codes "command " ++ (status ++ (codes ": " ++ snippet))
policy_reason (Action.sftp_transfer direction local remote) status =
    codes "sftp " ++ (direction_name direction ++ (codes " " ++ (status ++ (codes ": " ++ remote))))
policy_reason (Action.sftp_remove remote recursive) status =
    codes "sftp remove"
    ++ ((if recursive then codes " (recursive)" else [])
        ++ (codes " " ++ (status ++ (codes ": " ++ remote))))
policy_reason (Action.sftp_chmod remote mode) status =
    codes "sftp chmod " ++ (mode ++ (codes " " ++ (status ++ (codes ": " ++ remote))))

-- Line feeds and carriage returns as two characters.
abbrev escaped : Text → Text
escaped [] = []
escaped (c ∷ s) =
    let rest = escaped s in
    if c == 10 then b'\\' ∷ (b'n' ∷ rest) else if c == 13 then b'\\' ∷ (b'r' ∷ rest) else c ∷ rest

unfoldable pub truncate_for_log : List ℕ → ℕ → Text
truncate_for_log data_in max_chars = escaped (shorten max_chars max_chars (from_utf8_lossy data_in))
