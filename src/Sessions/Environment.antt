-- ===== src/Sessions/Environment.antt =====
-- src/application/sessions.rs: what the output of the probe of `detect_remote_env` is read as. A
-- slice whose end lies before its start panics.
use term_bridge.Prelude.{
  ℕ, suc, ◌+◌, ◌-◌, ◌≡◌, refl, Bool, not, Option, none, some, List, [], ◌∷◌, ◌++◌, length, take,
  drop, leb, ◌==◌, if◌then◌else◌,
}
use term_bridge.Text.{Text, codes, starts_with}
use term_bridge.Provider.{channel_error, invalid_argument, Result, ok, err}
use term_bridge.Policy.Lines.{lines, trim, is_empty}
use term_bridge.Session.{HandleKind, ssh_handle, persistent_handle, other_handle}
use term_bridge.Sessions.{SessionManager, get_session}

pub record ToolInfo : Type 0 where
  pub name : Text
  pub path : Text
  pub installed : Bool

pub record RemoteEnvInfo : Type 0 where
  pub os : Text
  pub shell : Text
  pub path : Text
  pub tools : List ToolInfo

abbrev pub start_marker : Text
start_marker = codes "__ENV_START__"

abbrev pub end_marker : Text
end_marker = codes "__ENV_END__"

abbrev one_on : Option ℕ → Option ℕ
one_on none = none
one_on (some i) = some (suc i)

-- s.find(p), for a `p` that is not empty
abbrev pub find : Text → Text → Option ℕ
find [] p = none
find (c ∷ s) p = let later = one_on (find s p) in if starts_with (c ∷ s) p then some 0 else later

-- lines.skip_while(|l| l.trim().is_empty())
abbrev skip_blank : List Text → List Text
skip_blank [] = []
skip_blank (l ∷ ls) = let rest = skip_blank ls in if is_empty (trim l) then rest else l ∷ ls

abbrev strip_prefix : Text → Text → Option Text
strip_prefix s p = if starts_with s p then some (drop (length p) s) else none

abbrev with_first : ℕ → Option (Text × Text) → Option (Text × Text)
with_first c none = none
with_first c (some (a, b)) = some (c ∷ a, b)

-- s.split_once(sep)
abbrev split_once : ℕ → Text → Option (Text × Text)
split_once sep [] = none
split_once sep (c ∷ s) =
    let later = with_first c (split_once sep s) in
    let here : Option (Text × Text) = some ([], s) in if c == sep then here else later

abbrev with_tool : RemoteEnvInfo → Option (Text × Text) → RemoteEnvInfo
with_tool info none = info
with_tool info (some (name, tool_path)) = record info {
  tools =
      info.tools
      ++ (record { name = name; path = tool_path; installed = not (is_empty tool_path) } ∷ []);
}

-- One line of the loop, trimmed.
abbrev pub read_line : RemoteEnvInfo → Text → RemoteEnvInfo
read_line info line = elim (strip_prefix line (codes "SHELL=")) [
  | some val ↦ record info { shell = val }
  | none ↦ elim (strip_prefix line (codes "PATH=")) [
    | some val ↦ record info { path = val }
    | none ↦ elim (strip_prefix line (codes "TOOL:")) [
      | some rest ↦ with_tool info (split_once b':' rest)
      | none ↦ info
    ]
  ]
]

abbrev read_lines : RemoteEnvInfo → List Text → RemoteEnvInfo
read_lines info [] = info
read_lines info (l ∷ ls) = read_lines (read_line info (trim l)) ls

abbrev of_os : Text → RemoteEnvInfo
of_os os = record { os = os; shell = []; path = []; tools = [] }

-- The first line that is not blank, and the others.
abbrev of_lines : List Text → RemoteEnvInfo
of_lines [] = of_os []
of_lines (l ∷ ls) = read_lines (of_os (trim l)) ls

pub data Parsed : Type 0 where
  panics : Parsed
  returns : Result RemoteEnvInfo → Parsed

-- With the two markers found.
abbrev of_body : Text → ℕ → ℕ → Parsed
of_body output body_start body_end =
    if leb body_start body_end
    then returns
        (ok (of_lines (skip_blank (lines (take (body_end - body_start) (drop body_start output))))))
    else panics

unfoldable pub parse_remote_env : Text → Parsed
parse_remote_env output = elim (find output start_marker) [
  | none ↦ returns (err (channel_error (codes "detect_remote_env: start marker not found")))
  | some start ↦ elim (find (drop start output) end_marker) [
    | none ↦ returns (err (channel_error (codes "detect_remote_env: end marker not found")))
    | some end_rel ↦ of_body output (start + length start_marker) (start + end_rel)
  ]
]

-- `exec` is the reply of the SSH handle to the probe.
abbrev detect_on : HandleKind → Result Text → Parsed
detect_on ssh_handle (ok output) = parse_remote_env output
detect_on ssh_handle (err e) = returns (err e)
detect_on persistent_handle exec =
    returns (err (invalid_argument (codes "session does not support exec")))
detect_on other_handle exec =
    returns (err (invalid_argument (codes "session does not support exec")))

unfoldable pub detect_remote_env : SessionManager → Text → Result Text → Parsed
unfolding parse_remote_env
detect_remote_env manager id exec = elim (get_session manager id) [
  | err e ↦ returns (err e)
  | ok session ↦ detect_on session.handle exec
]

-- Where the end marker is found on the last two bytes of the start marker, reading the output
-- panics, whatever follows.
pub overlap_panics :
    (rest : Text) → parse_remote_env (codes "__ENV_START__ENV_END__" ++ rest) ≡ panics
unfolding parse_remote_env
overlap_panics rest = refl
