-- ===== src/PathPolicy/Access.antt =====
-- What `check_remote_access` grants, and what the hard rules keep from it.
use term_bridge.Prelude.{
  ◌≡◌, ◌↔◌, ◌⊎◌, inl, inr, refl, ◌∙◌, true, false, Option, none, some, List, Bool-cases,
}
use term_bridge.Text.{Text, contains_char}
use term_bridge.PathPolicy.{
  sftp_no_such_file, Result, ok, err, SftpCanonicalize, PathPolicy, in_scope, refused_by,
  check_scope_and_safety, needs_home, is_create, then_also, check_parent, check_new,
  check_canonical, check_with_home, check_home, check_remote_access,
}
use term_bridge.PathPolicy.Lexical.{
  RemoteOperation, read, write, create, delete, chmod, Reason, hard_safety_deny, expand_tilde,
  normalize_remote_path_lexical, parent_remote_path,
}

-- The home that the check works with: none where no `~` asks for one.
abbrev pub HomeFor :
    PathPolicy → Text → Option (List Text) → SftpCanonicalize → Option Text → Type 0
HomeFor policy path host_roots sftp home =
    ((needs_home policy path host_roots ≡ false) × (home ≡ none))
    ⊎ ((h : Text) × (needs_home policy path host_roots ≡ true)
        × (sftp.home ≡ some h)
        × (home ≡ some h))

-- In scope, and not kept by a hard rule.
abbrev pub Allows : PathPolicy → RemoteOperation → Option (List Text) → Option Text → Text → Type 0
Allows policy op host_roots home c =
    (in_scope policy host_roots home c ≡ true) × (hard_safety_deny c op ≡ none)

-- The two ways to be granted: the target exists, or it is to be created in a directory that does.
pub data Granted (policy : PathPolicy) (path : Text) (op : RemoteOperation)
    (host_roots : Option (List Text)) (sftp : SftpCanonicalize) : Type 0 where
  existing :
      (home : Option Text) (c : Text)
      → HomeFor policy path host_roots sftp home
      → sftp.canonicalize (expand_tilde path home) ≡ ok c
      → Allows policy op host_roots home c
      → Granted policy path op host_roots sftp
  created :
      (home : Option Text) (parent c gone : Text)
      → HomeFor policy path host_roots sftp home
      → op ≡ create
      → sftp.canonicalize (expand_tilde path home) ≡ err (sftp_no_such_file gone)
      → parent_remote_path (expand_tilde path home) ≡ some parent
      → sftp.canonicalize parent ≡ ok c
      → Allows policy op host_roots home c
      → hard_safety_deny (normalize_remote_path_lexical (expand_tilde path home)) op ≡ none
      → Granted policy path op host_roots sftp

refused_by-ok : (o : Option Reason) → refused_by o ≡ ok tt → o ≡ none
refused_by-ok none h = refl
refused_by-ok (some r) h = cc

module _ (policy : PathPolicy) (op : RemoteOperation) (host_roots : Option (List Text))
    (home : Option Text) where
  scope-ok :
      (c : Text)
      → check_scope_and_safety policy c op host_roots home ≡ ok tt
      → Allows policy op host_roots home c
  unfolding check_scope_and_safety
  scope-ok c h = elim (Bool-cases (in_scope policy host_roots home c)) [
    | inl t ↦ (t, refused_by-ok (hard_safety_deny c op) (rw t at h))
    | inr f ↦ cc (rw f at h)
  ]

  ok-scope :
      (c : Text)
      → Allows policy op host_roots home c
      → check_scope_and_safety policy c op host_roots home ≡ ok tt
  unfolding check_scope_and_safety
  ok-scope c (s, d) = rw (s, d) refl

module _ (policy : PathPolicy) (path : Text) (op : RemoteOperation)
    (host_roots : Option (List Text)) (sftp : SftpCanonicalize) where
  parent-Granted :
      (home : Option Text) (parent gone : Text) (r : Result Text)
      → HomeFor policy path host_roots sftp home
      → op ≡ create
      → sftp.canonicalize (expand_tilde path home) ≡ err (sftp_no_such_file gone)
      → parent_remote_path (expand_tilde path home) ≡ some parent
      → sftp.canonicalize parent ≡ r
      → check_parent policy (expand_tilde path home) op host_roots home r ≡ ok tt
      → Granted policy path op host_roots sftp
  parent-Granted home parent gone (err e) hf oc g pe pc h = cc
  parent-Granted home parent gone (ok c) hf oc g pe pc h =
      let (first, second) = split_also _ _ h in
      created home parent c gone hf oc g pe pc (scope-ok policy op host_roots home c first)
        (refused_by-ok _ second)
    where
      split_also : (a b : Result (Unit {0})) → then_also a b ≡ ok tt → (a ≡ ok tt) × (b ≡ ok tt)
      split_also (ok tt) b q = (refl, q)
      split_also (err e) b q = cc

  new-Granted :
      (home : Option Text) (gone : Text) (o : Option Text)
      → HomeFor policy path host_roots sftp home
      → op ≡ create
      → sftp.canonicalize (expand_tilde path home) ≡ err (sftp_no_such_file gone)
      → parent_remote_path (expand_tilde path home) ≡ o
      → check_new policy sftp (expand_tilde path home) op host_roots home o ≡ ok tt
      → Granted policy path op host_roots sftp
  new-Granted home gone none hf oc g pe h = cc
  new-Granted home gone (some parent) hf oc g pe h =
      parent-Granted home parent gone (sftp.canonicalize parent) hf oc g pe refl h

  canonical-Granted :
      (home : Option Text) (r : Result Text)
      → HomeFor policy path host_roots sftp home
      → sftp.canonicalize (expand_tilde path home) ≡ r
      → check_canonical policy sftp (expand_tilde path home) op host_roots home r ≡ ok tt
      → Granted policy path op host_roots sftp
  canonical-Granted home (ok c) hf pc h =
      existing home c hf pc (scope-ok policy op host_roots home c h)
  canonical-Granted home (err (sftp_no_such_file gone)) hf pc h = elim (Bool-cases (is_create op)) [
    | inl t ↦
        new-Granted home gone (parent_remote_path (expand_tilde path home)) hf (creates op t) pc
          refl (rw t at h)
    | inr f ↦ cc (rw f at h)
  ]
    where
      creates : (o : RemoteOperation) → is_create o ≡ true → o ≡ create
      creates create q = refl
      creates read q = cc
      creates write q = cc
      creates delete q = cc
      creates chmod q = cc
  canonical-Granted home (err e) hf pc h = cc

  home-Granted :
      (o : Option Text)
      → needs_home policy path host_roots ≡ true
      → sftp.home ≡ o
      → check_home policy sftp path op host_roots o ≡ ok tt
      → Granted policy path op host_roots sftp
  home-Granted none n e h = cc
  home-Granted (some x) n e h =
      canonical-Granted (some x) (sftp.canonicalize (expand_tilde path (some x)))
        (inr (x, n, e, refl)) refl h

  -- Only what is granted passes the check.
  check-Granted :
      check_remote_access policy path op host_roots sftp ≡ ok tt
      → (contains_char 0 path ≡ false) × Granted policy path op host_roots sftp
  unfolding check_remote_access
  check-Granted h = elim (Bool-cases (contains_char 0 path)) [
    | inl t ↦ cc (rw t at h)
    | inr f ↦ (
      f,
      (elim (Bool-cases (needs_home policy path host_roots)) [
        | inl n ↦ home-Granted sftp.home n refl (rw (f, n) at h)
        | inr n ↦
            canonical-Granted none (sftp.canonicalize (expand_tilde path none)) (inl (n, refl)) refl
              (rw (f, n) at h)
      ]),
    )
  ]

  with_home :
      (home : Option Text)
      → contains_char 0 path ≡ false
      → HomeFor policy path host_roots sftp home
      → check_remote_access policy path op host_roots sftp
        ≡ check_with_home policy sftp path op host_roots home
  unfolding check_remote_access
  with_home home f (inl (n, e)) = rw (f, n, e) refl
  with_home home f (inr (x, n, s, e)) = rw (f, n, s, e) refl

  -- All that is granted passes the check.
  Granted-check :
      contains_char 0 path ≡ false
      → Granted policy path op host_roots sftp
      → check_remote_access policy path op host_roots sftp ≡ ok tt
  Granted-check f (existing home c hf pc a) =
      with_home home f hf ∙ rw pc (ok-scope policy op host_roots home c a)
  Granted-check f (created home parent c gone hf oc g pe pc a t) =
      with_home home f hf
      ∙ rw (g, oc, pe, pc) (rw (rw oc at (ok-scope policy op host_roots home c a), rw oc at t) refl)

  -- The check of a remote path passes exactly the paths without a null byte whose resolved
  -- target is in scope and not kept by a hard rule, or that are to be created in a resolved
  -- parent that is so, under a target name that no hard rule keeps.
  pub check_iff_Granted :
      (check_remote_access policy path op host_roots sftp ≡ ok tt)
      ↔ ((contains_char 0 path ≡ false) × Granted policy path op host_roots sftp)
  check_iff_Granted = (check-Granted, λ g. Granted-check g.0 g.1)
