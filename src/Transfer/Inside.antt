-- ===== src/Transfer/Inside.antt =====
-- src/infrastructure/sftp.rs: where the download of a directory writes.
use term_bridge.Prelude.{
  ◌≡◌, ◌≢◌, refl, subst, ℕ, zero, suc, Bool, Bool-cases, true, false, ◌||◌, Option, none, some,
  List, [], ◌∷◌, ◌++◌, append-nil, append_assoc, if◌then◌else◌, inl, inr,
}
use term_bridge.Text.{Text, codes, slash, contains_char, any}
use term_bridge.Table.{eq_text-false}
use term_bridge.Provider.{Result, ok, err}
use term_bridge.Traces.{All, Extends, Extends-refl, Extends-one, Extends-trans, Extends-weaken}
use term_bridge.Transfer.{
  RemoteEntry, DirTransferReport, is_control, validate_local_entry_name, TransferCall, creates_dir,
  lists, downloads, Peer, Traced, child, join, add_report, go_on, one_file, fetch, download_entries,
  empty_report, download_dir_inner, download_dir,
}

abbrev pub IsSafe : Text → Type 0
IsSafe name = validate_local_entry_name name ≡ none

-- A call that writes at a path from `local` on over safe names, or that lists the server.
pub data Inside (local : List Text) : TransferCall → Type 0 where
  dir_inside : (names : List Text) → All IsSafe names → Inside local (creates_dir (local ++ names))
  file_inside :
      (remote : Text) (names : List Text)
      → All IsSafe names
      → Inside local (downloads remote (local ++ names))
  listed : (remote : Text) → Inside local (lists remote)

Inside-join :
    (local : List Text) (name : Text)
    → IsSafe name
    → (c : TransferCall) → Inside (join local name) c
    → Inside local c
Inside-join local name safe c (dir_inside names h) =
    rw (append_assoc local (name ∷ []) names) (dir_inside (name ∷ names) (safe, h))
Inside-join local name safe c (file_inside remote names h) =
    rw (append_assoc local (name ∷ []) names) (file_inside remote (name ∷ names) (safe, h))
Inside-join local name safe c (listed remote) = listed remote

-- The directory itself.
at_root : (local : List Text) → Inside local (creates_dir local)
at_root local = subst (λ p. Inside local (creates_dir p)) (append-nil local) (dir_inside [] tt)

abbrev Stays : List Text → List TransferCall → List TransferCall → Type 0
Stays local calls more = Extends (Inside local) calls more

go_on-Stays :
    (local : List Text) (calls : List TransferCall) (report : DirTransferReport) (t : Traced)
    → (next : List TransferCall → DirTransferReport → Traced) → Stays local calls t.0
    → ((made : List TransferCall) (r : DirTransferReport) → Stays local made (next made r).0)
    → Stays local calls (go_on report t next).0
go_on-Stays local calls report (made, err e) next h more = h
go_on-Stays local calls report (made, ok sub) next h more =
    Extends-trans (Inside local) calls made (next made (add_report report sub)).0 h
      (more made (add_report report sub))

one_file-Stays :
    (peer : Peer) (local : List Text) (name : Text) (calls : List TransferCall) (remote : Text)
    → IsSafe name
    → (r : Result Unit) → peer.download calls remote (join local name) ≡ r
    → Stays local calls (one_file peer calls remote (join local name)).0
one_file-Stays peer local name calls remote safe (err e) h =
    rw (one_file, h)
      (Extends-one (Inside local) calls _ (file_inside remote (name ∷ []) (safe, tt)))
one_file-Stays peer local name calls remote safe (ok x) h =
    rw (one_file, h)
      (Extends-one (Inside local) calls _ (file_inside remote (name ∷ []) (safe, tt)))

module _ (peer : Peer) (descend : List TransferCall → Text → List Text → Traced)
    (descends : (calls : List TransferCall) (remote : Text) (local : List Text)
      → Stays local calls (descend calls remote local).0) where
  fetch-Stays :
      (remote : Text) (local : List Text) (calls : List TransferCall) (entry : RemoteEntry)
      → IsSafe entry.name
      → Stays local calls (fetch peer descend remote local calls entry).0
  fetch-Stays remote local calls entry safe = elim (Bool-cases entry.is_dir) [
    | inl dir ↦
        rw (fetch, dir)
          (Extends-weaken (Inside (join local entry.name)) (Inside local)
            (Inside-join local entry.name safe) calls _
            (descends calls (child remote entry.name) (join local entry.name)))
    | inr no_dir ↦ elim (Bool-cases entry.is_file) [
      | inl file ↦
          rw (fetch, no_dir, file)
            (one_file-Stays peer local entry.name calls (child remote entry.name) safe _ refl)
      | inr other ↦ rw (fetch, no_dir, other) (Extends-refl (Inside local) calls)
    ]
  ]

  download_entries-Stays :
      (remote : Text) (local : List Text) (calls : List TransferCall) (entries : List RemoteEntry)
      → (report : DirTransferReport)
      → Stays local calls (download_entries peer descend remote local calls entries report).0
  unfolding download_entries
  download_entries-Stays remote local calls [] report = Extends-refl (Inside local) calls
  download_entries-Stays remote local calls (entry ∷ entries) report =
      by_name (validate_local_entry_name entry.name) refl
        (λ made r. download_entries-Stays remote local made entries r)
    where
      by_name :
          (o : Option Text)
          → validate_local_entry_name entry.name ≡ o
          → ((made : List TransferCall) (r : DirTransferReport)
              → Stays local made (download_entries peer descend remote local made entries r).0)
          → Stays local calls
              (download_entries peer descend remote local calls (entry ∷ entries) report).0
      by_name (some reason) h ih = rw (download_entries, h) (ih calls _)
      by_name none h ih =
          rw (download_entries, h)
            (go_on-Stays local calls report _ _ (fetch-Stays remote local calls entry h) ih)

-- One level, by what creating the directory and listing answer.
level-Stays :
    (peer : Peer) (left : ℕ) (calls : List TransferCall) (remote : Text) (local : List Text)
    → ((made : List TransferCall) (r : Text) (l : List Text)
        → Stays l made (download_dir_inner peer left made r l).0)
    → (created : Result Unit) (entries : Result (List RemoteEntry))
    → peer.create_dir_all calls local ≡ created
    → peer.list_dir (calls ++ (creates_dir local ∷ [])) remote ≡ entries
    → Stays local calls (download_dir_inner peer (suc left) calls remote local).0
unfolding download_dir_inner
level-Stays peer left calls remote local ih (err e) entries c l =
    rw (download_dir_inner, c) (Extends-one (Inside local) calls _ (at_root local))
level-Stays peer left calls remote local ih (ok x) (err e) c l =
    rw (download_dir_inner, c, l)
      (Extends-trans (Inside local) calls (calls ++ (creates_dir local ∷ [])) _
        (Extends-one (Inside local) calls _ (at_root local))
        (Extends-one (Inside local) _ _ (listed remote)))
level-Stays peer left calls remote local ih (ok x) (ok entries) c l =
    rw (download_dir_inner, c, l)
      (Extends-trans (Inside local) calls
        ((calls ++ (creates_dir local ∷ [])) ++ (lists remote ∷ [])) _
        (Extends-trans (Inside local) calls (calls ++ (creates_dir local ∷ [])) _
          (Extends-one (Inside local) calls _ (at_root local))
          (Extends-one (Inside local) _ _ (listed remote)))
        (download_entries-Stays peer (λ c r l. download_dir_inner peer left c r l) ih remote local _
          entries empty_report))

download_dir_inner-Stays :
    (peer : Peer) (left : ℕ) (calls : List TransferCall) (remote : Text) (local : List Text)
    → Stays local calls (download_dir_inner peer left calls remote local).0
unfolding download_dir_inner
download_dir_inner-Stays peer zero calls remote local = Extends-refl (Inside local) calls
download_dir_inner-Stays peer (suc left) calls remote local =
    level-Stays peer left calls remote local
      (λ made r l. download_dir_inner-Stays peer left made r l) _ _ refl refl

-- One component of a path, and no step up.
abbrev pub IsComponent : Text → Type 0
IsComponent name =
    (name ≢ [])
    × (name ≢ codes ".")
    × (name ≢ codes "..")
    × (contains_char slash name ≡ false)
    × (contains_char b'\\' name ≡ false)
    × (any is_control name ≡ false)

-- One guard of the validation that did not stop it.
passed_guard :
    (b : Bool) (reason : Text) (rest : Option Text)
    → (if b then some reason else rest) ≡ none
    → (b ≡ false) × (rest ≡ none)
passed_guard true reason rest h = cc
passed_guard false reason rest h = (refl, h)

or_false : (a b : Bool) → (a || b) ≡ false → (a ≡ false) × (b ≡ false)
or_false true b h = cc
or_false false b h = (refl, h)

IsSafe-IsComponent : (name : Text) → IsSafe name → IsComponent name
unfolding validate_local_entry_name
IsSafe-IsComponent name h =
    let (not_empty, h1) = passed_guard _ _ _ h in
    let (no_dots, h2) = passed_guard _ _ _ h1 in
    let (no_backslash, h3) = passed_guard _ _ _ h2 in
    let (no_slash, h4) = passed_guard _ _ _ h3 in
    let (no_colon, h5) = passed_guard _ _ _ h4 in
    let (no_control, h6) = passed_guard _ _ _ h5 in
    let (no_dot, no_dot_dot) = or_false _ _ no_dots in
    (
      eq_text-false name [] not_empty,
      eq_text-false name (codes ".") no_dot,
      eq_text-false name (codes "..") no_dot_dot,
      no_slash,
      no_backslash,
      no_control,
    )

-- Whatever names the server lists, the download of a directory creates directories and files
-- only at the local directory and at paths from it over names that pass the check, each of which
-- is one component of a path and no step up.
pub download_dir-Inside :
    (peer : Peer) (remote : Text) (local : List Text)
    → Extends (Inside local) [] (download_dir peer remote local).0
      × ((name : Text) → IsSafe name → IsComponent name)
unfolding download_dir
download_dir-Inside peer remote local =
    (download_dir_inner-Stays peer 21 [] remote local, IsSafe-IsComponent)
