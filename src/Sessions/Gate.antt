-- ===== src/Sessions/Gate.antt =====
-- src/application/sessions.rs: which input reaches a terminal.
use term_bridge.Prelude.{◌≡◌, refl, inl, inr, ℕ, Bool-cases, true, List, [], ◌∷◌}
use term_bridge.Text.{Text, codes}
use term_bridge.Utf8.{from_utf8_lossy}
use term_bridge.Provider.{TermError, policy_denied, session_closed, Result, ok, err}
use term_bridge.Policy.{ApprovalMode, authorize_with_approval}
use term_bridge.Policy.Chain.{Some, approval_keeps_deny}
use term_bridge.Policy.Rules.{Action, deny}
use term_bridge.Session.{HandleCall, handle_write, is_usable, Clock, Session}
use term_bridge.Session
use term_bridge.Sessions.Reason.{policy_reason}
use term_bridge.Sessions.{
  SessionManager, Reply, get_session, check_policy, on_session, send_input, approval_for, fails,
}

-- Written, or nothing was.
pub data Outcome (manager : SessionManager) (id : Text) (data_in : List ℕ) (reply : Result Unit)
    (r : Reply Unit) : Type 0 where
  written :
      (session : Session)
      → check_policy manager (Action.send_input id (from_utf8_lossy data_in)) ≡ ok tt
      → get_session manager id ≡ ok session
      → is_usable session.state ≡ true
      → r.calls ≡ handle_write data_in ∷ []
      → r.result ≡ reply
      → Outcome manager id data_in reply r
  kept : (e : TermError) → r.calls ≡ [] → r.result ≡ err e → Outcome manager id data_in reply r

module _ (manager : SessionManager) (id : Text) (now : Clock) (data_in : List ℕ)
    (reply : Result Unit) where
  found :
      (got : Result Session)
      → check_policy manager (Action.send_input id (from_utf8_lossy data_in)) ≡ ok tt
      → get_session manager id ≡ got
      → Outcome manager id data_in reply (send_input manager id now data_in reply)
  unfolding send_input Session.send_input
  found (err e) allowed h =
      kept e (rw (send_input, allowed, on_session, h) refl)
        (rw (send_input, allowed, on_session, h) refl)
  found (ok session) allowed h = elim (Bool-cases (is_usable session.state)) [
    | inl usable ↦
        written session allowed h usable (rw (send_input, allowed, on_session, h, usable) refl)
          (rw (send_input, allowed, on_session, h, usable) refl)
    | inr not_usable ↦
        kept (session_closed session.id) (rw (send_input, allowed, on_session, h, not_usable) refl)
          (rw (send_input, allowed, on_session, h, not_usable) refl)
  ]

  decided_by :
      (verdict : Result Unit)
      → check_policy manager (Action.send_input id (from_utf8_lossy data_in)) ≡ verdict
      → Outcome manager id data_in reply (send_input manager id now data_in reply)
  unfolding send_input
  decided_by (ok x) allowed = found (get_session manager id) allowed refl
  decided_by (err e) refused_input =
      kept e (rw (send_input, refused_input) refl) (rw (send_input, refused_input) refl)

  -- Input is written to the terminal only as it is, once, to a session that exists and is ready,
  -- and after the policies let it through in the session's approval mode; in any other case
  -- nothing is written and an error is returned.
  pub send_input-Outcome :
      Outcome manager id data_in reply (send_input manager id now data_in reply)
  send_input-Outcome = decided_by _ refl

  -- What one of the policies denies is not written, whatever the approval mode, and the answer
  -- is the same whether the session exists or not.
  pub denied-silent :
      Some deny (Action.send_input id (from_utf8_lossy data_in)) manager.policy.policies
      → send_input manager id now data_in reply
        ≡ fails manager (
            policy_denied
              (policy_reason (Action.send_input id (from_utf8_lossy data_in)) (codes "blocked")))
  unfolding send_input check_policy
  denied-silent denies = rw (send_input, checks) refl
    where
      mode : ApprovalMode
      mode = approval_for manager (Action.send_input id (from_utf8_lossy data_in))

      denied :
          (m : ApprovalMode)
          → authorize_with_approval manager.policy
              (Action.send_input id (from_utf8_lossy data_in))
              m
            ≡ deny
      denied m =
          (approval_keeps_deny manager.policy (Action.send_input id (from_utf8_lossy data_in))
              m).0.1
            denies

      checks :
          check_policy manager (Action.send_input id (from_utf8_lossy data_in))
          ≡ err (
              policy_denied
                (policy_reason (Action.send_input id (from_utf8_lossy data_in)) (codes "blocked")))
      checks = rw (denied mode) refl
