-- ===== src/Sessions/Files/Tree.antt =====
-- src/application/sessions.rs: which paths `sftp_remove_recursive` names to the channel.
use term_bridge.Prelude.{
  ◌≡◌, refl, subst, ℕ, zero, suc, Bool-cases, Bool, true, false, List, [], ◌∷◌, ◌++◌, append-nil,
  append_assoc, if◌then◌else◌, inl, inr,
}
use term_bridge.Text.{Text, slash, ends_with}
use term_bridge.Provider.{Result, ok, err}
use term_bridge.Traces.{Extends, Extends-refl, Extends-one, Extends-trans, Extends-weaken}
use term_bridge.Transfer.{RemoteEntry}
use term_bridge.Sessions.Files.{
  SftpCall, call_list_dir, call_remove, call_rmdir, Sftp, Traced, call_sftp, then_call, child_path,
  remove_entries, remove_recursive,
}

-- One of the three calls of the removal, on a path that begins with `remote`.
pub data Below (remote : Text) : SftpCall → Type 0 where
  listed : (rest : Text) → Below remote (call_list_dir (remote ++ rest))
  removed : (rest : Text) → Below remote (call_remove (remote ++ rest))
  emptied : (rest : Text) → Below remote (call_rmdir (remote ++ rest))

-- The calls go on from those that were made, all of them below `remote`.
abbrev pub GoesBelow : Text → List SftpCall → List SftpCall → Type 0
GoesBelow remote calls more = Extends (Below remote) calls more

Below-longer :
    (remote rest : Text) {call : SftpCall} → Below (remote ++ rest) call → Below remote call
Below-longer remote rest (listed more) = rw (append_assoc remote rest more) (listed (rest ++ more))
Below-longer remote rest (removed more) =
    rw (append_assoc remote rest more) (removed (rest ++ more))
Below-longer remote rest (emptied more) =
    rw (append_assoc remote rest more) (emptied (rest ++ more))

then_call-GoesBelow :
    (remote : Text) (calls : List SftpCall) (t : Traced) (next : List SftpCall → Traced)
    → GoesBelow remote calls t.0
    → ((made : List SftpCall) → GoesBelow remote made (next made).0)
    → GoesBelow remote calls (then_call t next).0
then_call-GoesBelow remote calls (made, ok _) next h more =
    Extends-trans (Below remote) calls made (next made).0 h (more made)
then_call-GoesBelow remote calls (made, err e) next h more = h

child_path-extends :
    (remote name : Text) → (rest : Text) × (child_path remote name ≡ remote ++ rest)
child_path-extends remote name = elim (Bool-cases (ends_with remote (slash ∷ []))) [
  | inl slashed ↦ (name, rw slashed refl)
  | inr plain ↦ (slash ∷ name, rw plain refl)
]

module _ (sftp : Sftp) (descend : List SftpCall → Text → Traced)
    (descends : (calls : List SftpCall) (path : Text)
      → GoesBelow path calls (descend calls path).0) where
  child-GoesBelow :
      (remote rest child : Text) (calls : List SftpCall) (is_dir : Bool)
      → child ≡ remote ++ rest
      → GoesBelow remote calls
          (if is_dir then descend calls child else call_sftp sftp calls (call_remove child)).0
  child-GoesBelow remote rest child calls true e = rw e (
      Extends-weaken (Below (remote ++ rest)) (Below remote) (λ c b. Below-longer remote rest b)
        calls _ (descends calls (remote ++ rest)))
  child-GoesBelow remote rest child calls false e =
      rw e (Extends-one (Below remote) calls (call_remove (remote ++ rest)) (removed rest))

  remove_entries-GoesBelow :
      (remote : Text) (calls : List SftpCall) (entries : List RemoteEntry)
      → GoesBelow remote calls (remove_entries sftp descend remote calls entries).0
  unfolding remove_entries
  remove_entries-GoesBelow remote calls [] = Extends-refl (Below remote) calls
  remove_entries-GoesBelow remote calls (entry ∷ entries) =
      let (rest, e) = child_path-extends remote entry.name in
      then_call-GoesBelow remote calls _ _
        (child-GoesBelow remote rest (child_path remote entry.name) calls entry.is_dir e)
        (λ made. remove_entries-GoesBelow remote made entries)

-- The listing of the directory and the removal of it at the end.
lists_itself : (remote : Text) → Below remote (call_list_dir remote)
lists_itself remote = subst (λ p. Below remote (call_list_dir p)) (append-nil remote) (listed [])

empties_itself : (remote : Text) → Below remote (call_rmdir remote)
empties_itself remote = subst (λ p. Below remote (call_rmdir p)) (append-nil remote) (emptied [])

-- One level, by what the listing answers.
level-GoesBelow :
    (sftp : Sftp) (left : ℕ) (calls : List SftpCall) (remote : Text)
    → ((made : List SftpCall) (path : Text)
        → GoesBelow path made (remove_recursive sftp left made path).0)
    → (r : Result (List RemoteEntry)) → sftp.list_dir calls remote ≡ r
    → GoesBelow remote calls (remove_recursive sftp (suc left) calls remote).0
unfolding remove_recursive
level-GoesBelow sftp left calls remote ih (err e) h =
    rw (remove_recursive, h)
      (Extends-one (Below remote) calls (call_list_dir remote) (lists_itself remote))
level-GoesBelow sftp left calls remote ih (ok entries) h =
    rw (remove_recursive, h)
      (let listed_calls = calls ++ (call_list_dir remote ∷ []) in
        Extends-trans (Below remote) calls listed_calls _
          (Extends-one (Below remote) calls (call_list_dir remote) (lists_itself remote))
          (then_call-GoesBelow remote listed_calls _ _
            (remove_entries-GoesBelow sftp (λ made path. remove_recursive sftp left made path) ih
              remote listed_calls entries)
            (λ made. Extends-one (Below remote) made (call_rmdir remote) (empties_itself remote))))

-- Whatever the server lists and answers, and whatever was called before, the recursive removal
-- goes on with listings and removals only, of paths that all begin with the path that was asked
-- for.
pub remove_recursive-GoesBelow :
    (sftp : Sftp) (left : ℕ) (calls : List SftpCall) (remote : Text)
    → GoesBelow remote calls (remove_recursive sftp left calls remote).0
unfolding remove_recursive
remove_recursive-GoesBelow sftp zero calls remote = Extends-refl (Below remote) calls
remove_recursive-GoesBelow sftp (suc left) calls remote =
    level-GoesBelow sftp left calls remote
      (λ made path. remove_recursive-GoesBelow sftp left made path) (sftp.list_dir calls remote)
      refl
