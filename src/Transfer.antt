-- ===== src/Transfer.antt =====
-- src/infrastructure/sftp.rs: the download of a directory and the names it accepts. The SFTP server
-- and the local file system are parameters: what they answer to a call may depend on the calls
-- before it. A local path is its components.
pub mod Inside
use term_bridge.Prelude.{
  ℕ, zero, suc, ◌+◌, Bool, true, false, not, ◌&&◌, ◌||◌, Option, none, some, List, [], ◌∷◌, ◌++◌,
  leb, ltb, ◌==◌, if◌then◌else◌,
}
use term_bridge.Text.{Text, codes, slash, eq_text, ends_with, contains_char, any, split}
use term_bridge.Provider.{TermError, invalid_argument, Result, ok, err, to_ascii_lowercase}

pub record RemoteEntry : Type 0 where
  pub name : Text
  pub is_dir : Bool
  pub is_file : Bool
  pub size : ℕ
  pub permissions : Option ℕ

pub record SkippedEntry : Type 0 where
  pub name : Text
  pub reason : Text

pub record DirTransferReport : Type 0 where
  pub files_transferred : ℕ
  pub skipped : List SkippedEntry

-- char::is_control
abbrev pub is_control : ℕ → Bool
is_control c = ltb c 32 || (leb 127 c && leb c 159)

abbrev pub reserved : List Text
reserved =
    codes "CON"
    ∷ codes "PRN"
    ∷ codes "AUX"
    ∷ codes "NUL"
    ∷ codes "COM1"
    ∷ codes "COM2"
    ∷ codes "COM3"
    ∷ codes "COM4"
    ∷ codes "COM5"
    ∷ codes "COM6"
    ∷ codes "COM7"
    ∷ codes "COM8"
    ∷ codes "COM9"
    ∷ codes "LPT1"
    ∷ codes "LPT2"
    ∷ codes "LPT3"
    ∷ codes "LPT4"
    ∷ codes "LPT5"
    ∷ codes "LPT6"
    ∷ codes "LPT7"
    ∷ codes "LPT8"
    ∷ codes "LPT9"
    ∷ []

abbrev first_piece : List Text → Text
first_piece [] = []
first_piece (s ∷ ss) = s

abbrev stem : Text → Text
stem name = first_piece (split b'.' name)

abbrev pub is_reserved : Text → Bool
is_reserved name =
    any (λ r. eq_text (to_ascii_lowercase (stem name)) (to_ascii_lowercase r)) reserved

-- Nothing, or why the name is not safe.
unfoldable pub validate_local_entry_name : Text → Option Text
validate_local_entry_name name =
    if eq_text name []
    then some (codes "empty name")
    else if eq_text name (codes ".") || eq_text name (codes "..")
    then some (codes "relative path component '" ++ (name ++ codes "'"))
    else if contains_char b'\\' name
    then some (codes "contains backslash")
    else if contains_char slash name
    then some (codes "contains slash")
    else if contains_char b':' name
    then some (codes "contains colon (NTFS alternate data stream)")
    else if any is_control name
    then some (codes "contains control characters")
    else if ends_with name (codes ".") || ends_with name (codes " ")
    then some (codes "ends with dot or space")
    else if is_reserved name
    then some (codes "reserved device name '" ++ (stem name ++ codes "'"))
    else none

pub data TransferCall : Type 0 where
  creates_dir : List Text → TransferCall
  lists : Text → TransferCall
  downloads : (remote : Text) (local : List Text) → TransferCall

pub record Peer : Type 0 where
  pub create_dir_all : List TransferCall → List Text → Result Unit
  pub list_dir : List TransferCall → Text → Result (List RemoteEntry)
  pub download : List TransferCall → Text → List Text → Result Unit

-- The calls so far, and the report or the first error.
abbrev pub Traced : Type 0
Traced = List TransferCall × Result DirTransferReport

abbrev pub child : Text → Text → Text
child remote name =
    if ends_with remote (slash ∷ []) then remote ++ name else remote ++ (slash ∷ name)

abbrev pub join : List Text → Text → List Text
join local name = local ++ (name ∷ [])

abbrev pub skip : DirTransferReport → Text → Text → DirTransferReport
skip report name reason = record report {
  skipped = report.skipped ++ (record { name = name; reason = reason } ∷ []);
}

abbrev pub add_report : DirTransferReport → DirTransferReport → DirTransferReport
add_report report sub = record {
  files_transferred = report.files_transferred + sub.files_transferred;
  skipped = report.skipped ++ sub.skipped;
}

-- What a directory's own download adds to the report, with the loop behind it.
abbrev pub go_on :
    DirTransferReport → Traced → (List TransferCall → DirTransferReport → Traced) → Traced
go_on report (calls, err e) next = (calls, err e)
go_on report (calls, ok sub) next = next calls (add_report report sub)

abbrev pub one_file : Peer → List TransferCall → Text → List Text → Traced
one_file peer calls remote local =
    let made = calls ++ (downloads remote local ∷ []) in
    elim (peer.download calls remote local) [
      | err e ↦ (made, err e)
      | ok _ ↦ (made, ok (record { files_transferred = 1; skipped = [] }))
    ]

abbrev pub not_regular : Text
not_regular = codes "not a regular file or directory"

-- An entry with a safe name; `descend` is the recursion on a directory.
abbrev pub fetch :
    Peer
    → (List TransferCall → Text → List Text → Traced)
    → Text
    → List Text
    → List TransferCall
    → RemoteEntry
    → Traced
fetch peer descend remote local calls entry =
    if entry.is_dir
    then descend calls (child remote entry.name) (join local entry.name)
    else if entry.is_file
    then one_file peer calls (child remote entry.name) (join local entry.name)
    else (
      calls,
      ok (record {
        files_transferred = 0;
        skipped = record { name = entry.name; reason = not_regular } ∷ [];
      }),
    )

-- The loop over the entries.
unfoldable pub download_entries :
    Peer
    → (List TransferCall → Text → List Text → Traced)
    → Text
    → List Text
    → List TransferCall
    → List RemoteEntry
    → DirTransferReport
    → Traced
download_entries peer descend remote local calls [] report = (calls, ok report)
download_entries peer descend remote local calls (entry ∷ entries) report =
    elim (validate_local_entry_name entry.name) [
      | some reason ↦
          download_entries peer descend remote local calls entries
            (skip report entry.name (codes "invalid local filename: " ++ reason))
      | none ↦
          go_on report (fetch peer descend remote local calls entry)
            (λ calls' report'. download_entries peer descend remote local calls' entries report')
    ]

abbrev pub empty_report : DirTransferReport
empty_report = record { files_transferred = 0; skipped = [] }

-- `download_dir_inner`, with the levels that are left: max_depth + 1 - depth.
unfoldable pub download_dir_inner : Peer → ℕ → List TransferCall → Text → List Text → Traced
unfolding download_entries
download_dir_inner peer zero calls remote local =
    (calls, err (invalid_argument (codes "sftp download_dir exceeded max depth 20")))
download_dir_inner peer (suc left) calls remote local =
    let made = calls ++ (creates_dir local ∷ []) in
    let listed = made ++ (lists remote ∷ []) in
    elim (peer.create_dir_all calls local) [
      | err e ↦ (made, err e)
      | ok _ ↦ elim (peer.list_dir made remote) [
        | err e ↦ (listed, err e)
        | ok entries ↦
            download_entries peer (λ c r l. download_dir_inner peer left c r l) remote local listed
              entries empty_report
      ]
    ]

unfoldable pub download_dir : Peer → Text → List Text → Traced
unfolding download_dir_inner
download_dir peer remote local = download_dir_inner peer 21 [] remote local
