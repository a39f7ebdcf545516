-- ===== src/Policy.antt =====
-- src/domain/policy.rs and src/application/policy.rs: approval modes, policies, and the chain of
-- them that `PolicyManager` keeps. A `Policy` is its `authorize`; the log calls are left out.
pub mod Lines
pub mod Rules
pub mod Chain
pub mod Input
use term_bridge.Prelude.{Bool, true, false, List, [], ◌∷◌, ◌++◌}
use term_bridge.Text.{Text}
use Rules.{
  Action, send_input, sftp_transfer, sftp_remove, sftp_chmod, Decision, allow, confirm, deny,
  check_send_input, check_sftp_transfer, check_sftp_remove, check_sftp_chmod,
}

pub data ApprovalMode : Type 0 where
  standard unrestricted : ApprovalMode

pub record Policy : Type 0 where
  pub authorize : Action → Decision

abbrev pub default_authorize : (Text → Text → Bool) → Action → Decision
default_authorize is_match (send_input session_id text) = check_send_input is_match text
default_authorize is_match (sftp_transfer direction local remote) =
    check_sftp_transfer direction remote
default_authorize is_match (sftp_remove remote recursive) = check_sftp_remove remote recursive
default_authorize is_match (sftp_chmod remote mode) = check_sftp_chmod remote mode

-- `DefaultPolicy`
abbrev pub default_policy : (Text → Text → Bool) → Policy
default_policy is_match = record { authorize = default_authorize is_match }

pub record PolicyManager : Type 0 where
  pub policies : List Policy

abbrev pub empty_manager : PolicyManager
empty_manager = record { policies = [] }

unfoldable pub add : PolicyManager → Policy → PolicyManager
add manager policy = record { policies = manager.policies ++ (policy ∷ []) }

unfoldable pub with_default : (Text → Text → Bool) → PolicyManager
unfolding add
with_default is_match = add empty_manager (default_policy is_match)

-- One decision of the chain, with the ends of the loop behind it for both results.
abbrev pub on_decision : Decision → Decision → Decision → Decision
on_decision deny asked kept = deny
on_decision confirm asked kept = asked
on_decision allow asked kept = kept

-- The loop of `authorize`.
pub chain : Decision → List Policy → Action → Decision
chain result [] action = result
chain result (policy ∷ policies) action =
    let asked = chain confirm policies action in
    let kept = chain result policies action in on_decision (policy.authorize action) asked kept

unfoldable pub authorize : PolicyManager → Action → Decision
unfolding chain
authorize manager action = chain allow manager.policies action

abbrev pub approved : Decision → ApprovalMode → Decision
approved deny mode = deny
approved confirm unrestricted = allow
approved confirm standard = confirm
approved allow mode = allow

unfoldable pub authorize_with_approval : PolicyManager → Action → ApprovalMode → Decision
unfolding authorize
authorize_with_approval manager action mode = approved (authorize manager action) mode
