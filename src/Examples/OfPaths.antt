-- ===== src/Examples/OfPaths.antt =====
-- A policy with one root, and an SFTP channel that resolves the paths under it as they are.
use term_bridge.Prelude.{
  ◌≡◌, ◌≢◌, ◌↔◌, ◌⊎◌, inl, refl, true, false, none, some, [], ◌∷◌, if◌then◌else◌, ◌++◌,
}
use term_bridge.Text.{Text, codes, eq_text, contains_char, slash}
use term_bridge.PathPolicy.{
  Result, ok, err, sftp_no_such_file, SftpCanonicalize, PathPolicy, in_scope, check_remote_access,
  check_scope_and_safety,
}
use term_bridge.PathPolicy.Access.{Granted, check_iff_Granted}
use term_bridge.PathPolicy.Lexical.{
  read, write, create, is_under_remote, normalize_remote_path_lexical, ends_slash, expand_tilde,
  hard_safety_deny,
}
use term_bridge.PathPolicy.Lexical.Clean.{resolved, rooted_text, normalize_rooted}
use term_bridge.PathPolicy.Lexical.Remaining.{AllNames, remaining}
use term_bridge.PathPolicy.Safety.{
  Touches, change-Touches, key_file, key_directory, relative_key_file_passes,
}

abbrev home_root : PathPolicy
home_root = record { allowed_local_paths = []; allowed_remote_paths = codes "/u" ∷ [] }

-- The account's home is /u; `.ssh` is there, and no key file.
abbrev resolve : Text → Result Text
resolve path =
    if eq_text path key_file
    then err (sftp_no_such_file path)
    else if eq_text path key_directory
    then ok (codes "/u/.ssh")
    else ok path

abbrev channel : SftpCanonicalize
channel = record { home = some (codes "/u"); canonicalize = resolve }

abbrev notes : Text
notes = codes "/u/notes"

notes-passes : check_remote_access home_root notes write none channel ≡ ok tt
unfolding check_remote_access expand_tilde check_scope_and_safety is_under_remote hard_safety_deny
notes-passes = refl

check_iff_Granted_example :
    (check_remote_access home_root notes write none channel ≡ ok tt)
    ↔ ((contains_char 0 notes ≡ false) × Granted home_root notes write none channel)
check_iff_Granted_example = check_iff_Granted home_root notes write none channel

write-change : write ≢ read
write-change h = cc

change-Touches_example : Touches home_root notes write none channel
change-Touches_example = change-Touches home_root notes write none channel write-change notes-passes

key_directory-in_scope : in_scope home_root none none (codes "/u/.ssh") ≡ true
unfolding is_under_remote expand_tilde
key_directory-in_scope = refl

relative_key_file_passes_example :
    check_remote_access home_root key_file create none channel ≡ ok tt
relative_key_file_passes_example =
    relative_key_file_passes home_root none channel none (codes "/u/.ssh") key_file
      (inl (refl, refl)) refl refl key_directory-in_scope (refl, refl)

abbrev dotted : Text
dotted = codes "/u/./x/../y/"

normalize_rooted_example :
    AllNames (resolved dotted)
    × ((normalize_remote_path_lexical dotted ≡ rooted_text (resolved dotted))
        ⊎ ((ends_slash dotted ≡ true)
            × (normalize_remote_path_lexical dotted
                ≡ rooted_text (resolved dotted) ++ (slash ∷ []))))
normalize_rooted_example = normalize_rooted dotted refl

dotted-resolved : resolved dotted ≡ codes "y" ∷ (codes "u" ∷ [])
unfolding remaining
dotted-resolved = refl
