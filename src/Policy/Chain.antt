-- ===== src/Policy/Chain.antt =====
-- What a chain of policies decides, under each approval mode.
use term_bridge.Prelude.{
  ◌≡◌, ◌≢◌, ◌↔◌, ◌⊎◌, inl, inr, refl, ◌∙◌, Bool, true, false, List, [], ◌∷◌, sym, Bool-cases,
}
use term_bridge.Text.{Text, any}
use term_bridge.PathPolicy.Lexical.{normalize_remote_path_lexical}
use term_bridge.Policy.Rules.{
  Action, sftp_remove, Decision, allow, confirm, deny, check_sftp_remove, under, critical,
}
use term_bridge.Policy.{
  ApprovalMode, standard, unrestricted, Policy, PolicyManager, default_policy, chain, authorize,
  approved, authorize_with_approval,
}

pub Decision-cases : (d : Decision) → (d ≡ deny) ⊎ ((d ≡ confirm) ⊎ (d ≡ allow))
Decision-cases deny = inl refl
Decision-cases confirm = inr (inl refl)
Decision-cases allow = inr (inr refl)

-- Some policy of the list decides so.
pub data Some (d : Decision) (action : Action) : List Policy → Type 0 where
  here : (p : Policy) (ps : List Policy) → p.authorize action ≡ d → Some d action (p ∷ ps)
  there : (p : Policy) (ps : List Policy) → Some d action ps → Some d action (p ∷ ps)

abbrev pub AllAllow : Action → List Policy → Type 0
AllAllow action [] = Unit
AllAllow action (p ∷ ps) = (p.authorize action ≡ allow) × AllAllow action ps

module _ (action : Action) where
  chain-Some :
      (r : Decision) (ps : List Policy) → r ≢ deny → chain r ps action ≡ deny → Some deny action ps
  unfolding chain
  chain-Some r [] n h = absurd (n h)
  chain-Some r (p ∷ ps) n h = elim (Decision-cases (p.authorize action)) [
    | inl d ↦ here p ps d
    | inr (inl c) ↦ there p ps (chain-Some confirm ps (λ q. cc) (rw c at h))
    | inr (inr a) ↦ there p ps (chain-Some r ps n (rw a at h))
  ]

  Some-chain : (r : Decision) (ps : List Policy) → Some deny action ps → chain r ps action ≡ deny
  unfolding chain
  Some-chain r [] s = elim s [ ]
  Some-chain r (p ∷ ps) (here _ _ d) = rw d refl
  Some-chain r (p ∷ ps) (there _ _ s) = elim (Decision-cases (p.authorize action)) [
    | inl d ↦ rw d refl
    | inr (inl c) ↦ rw c (Some-chain confirm ps s)
    | inr (inr a) ↦ rw a (Some-chain r ps s)
  ]

  chain-AllAllow :
      (r : Decision) (ps : List Policy)
      → chain r ps action ≡ allow
      → (r ≡ allow) × AllAllow action ps
  unfolding chain
  chain-AllAllow r [] h = (h, tt)
  chain-AllAllow r (p ∷ ps) h = elim (Decision-cases (p.authorize action)) [
    | inl d ↦ cc (rw d at h)
    | inr (inl c) ↦ asked_not_allowed (chain-AllAllow confirm ps (rw c at h)).0
    | inr (inr a) ↦ let (same, all) = chain-AllAllow r ps (rw a at h) in (same, (a, all))
  ]
    where
      asked_not_allowed : confirm ≡ allow → (r ≡ allow) × AllAllow action (p ∷ ps)
      asked_not_allowed q = cc

  AllAllow-chain : (ps : List Policy) → AllAllow action ps → chain allow ps action ≡ allow
  unfolding chain
  AllAllow-chain [] h = refl
  AllAllow-chain (p ∷ ps) h = rw h.0 (AllAllow-chain ps h.1)

-- A chain denies exactly if one of its policies does, and allows exactly if all of them do.
pub authorize_strictest :
    (manager : PolicyManager) (action : Action)
    → ((authorize manager action ≡ deny) ↔ Some deny action manager.policies)
      × ((authorize manager action ≡ allow) ↔ AllAllow action manager.policies)
unfolding authorize
authorize_strictest manager action = (
  (chain-Some action allow manager.policies (λ q. cc), Some-chain action allow manager.policies),
  (λ h. (chain-AllAllow action allow manager.policies h).1, AllAllow-chain action manager.policies),
)

approved-deny : (d : Decision) (mode : ApprovalMode) → (approved d mode ≡ deny) ↔ (d ≡ deny)
approved-deny deny mode = (λ h. refl, λ h. refl)
approved-deny confirm standard = (λ h. cc, λ h. cc)
approved-deny confirm unrestricted = (λ h. cc, λ h. cc)
approved-deny allow mode = (λ h. cc, λ h. cc)

approved-standard : (d : Decision) → approved d standard ≡ d
approved-standard deny = refl
approved-standard confirm = refl
approved-standard allow = refl

approved-unrestricted : (d : Decision) → approved d unrestricted ≢ confirm
approved-unrestricted deny h = cc
approved-unrestricted confirm h = cc
approved-unrestricted allow h = cc

-- In every approval mode a chain of policies denies exactly if one of them does; the standard
-- mode decides as the chain does, and the unrestricted mode never asks.
pub approval_keeps_deny :
    (manager : PolicyManager) (action : Action) (mode : ApprovalMode)
    → ((authorize_with_approval manager action mode ≡ deny) ↔ Some deny action manager.policies)
      × ((authorize_with_approval manager action standard ≡ authorize manager action)
          × (authorize_with_approval manager action unrestricted ≢ confirm))
unfolding authorize_with_approval
approval_keeps_deny manager action mode = (
  (
    λ h. (strictest.0 ((approved-deny (authorize manager action) mode).0 h)),
    λ s. (approved-deny (authorize manager action) mode).1 (strictest.1 s),
  ),
  (approved-standard (authorize manager action), approved-unrestricted (authorize manager action)),
)
  where
    strictest : (authorize manager action ≡ deny) ↔ Some deny action manager.policies
    strictest = (authorize_strictest manager action).0

remove_not_allowed : (remote : Text) (recursive : Bool) → check_sftp_remove remote recursive ≢ allow
unfolding check_sftp_remove
remove_not_allowed remote false h = cc
remove_not_allowed remote true h =
    elim (Bool-cases (any (under (normalize_remote_path_lexical remote)) critical)) [
      | inl t ↦ cc (rw t at h)
      | inr f ↦ cc (rw f at h)
    ]

-- With the default policy first in the chain, a removal is never let through unasked in the
-- standard mode, and a recursive one of a path whose normal form is a system directory or below
-- one is denied in every mode.
pub removal_guarded :
    (is_match : Text → Text → Bool) (policies : List Policy) (remote : Text) (recursive : Bool)
    (doomed : Text) (mode : ApprovalMode)
    → any (under (normalize_remote_path_lexical doomed)) critical ≡ true
    → let manager : PolicyManager = record { policies = default_policy is_match ∷ policies } in
      (authorize_with_approval manager (sftp_remove remote recursive) standard ≢ allow)
      × (authorize_with_approval manager (sftp_remove doomed true) mode ≡ deny)
removal_guarded is_match policies remote recursive doomed mode system = (
  λ h. remove_not_allowed remote recursive (all_allow (same ∙ h)).0,
  (approval_keeps_deny manager (sftp_remove doomed true) mode).0.1
      (here (default_policy is_match) policies denied),
)
  where
    manager : PolicyManager
    manager = record { policies = default_policy is_match ∷ policies }

    same :
        authorize manager (sftp_remove remote recursive)
        ≡ authorize_with_approval manager (sftp_remove remote recursive) standard
    same = sym (approval_keeps_deny manager (sftp_remove remote recursive) mode).1.0

    all_allow :
        authorize manager (sftp_remove remote recursive) ≡ allow
        → AllAllow (sftp_remove remote recursive) manager.policies
    all_allow = (authorize_strictest manager (sftp_remove remote recursive)).1.0

    denied : check_sftp_remove doomed true ≡ deny
    denied = unfold check_sftp_remove in rw system refl
