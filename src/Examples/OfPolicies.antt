-- ===== src/Examples/OfPolicies.antt =====
-- The default policy with a matcher that knows a plain word, on a few lines and paths.
use term_bridge.Prelude.{◌≡◌, ◌≢◌, ◌↔◌, refl, Bool, true, false, ◌&&◌, [], ◌∷◌, ◌++◌}
use term_bridge.Text.{Text, codes, contains, any, eq_text}
use term_bridge.PathPolicy.Lexical.{normalize_remote_path_lexical}
use term_bridge.Policy.Lines.{lines, trim, is_empty}
use term_bridge.Policy.Rules.{
  Action, send_input, sftp_remove, allow, confirm, deny, under, critical, check_send_input,
  sudo_non_interactive_passthrough, sudo_rule,
}
use term_bridge.Policy.{
  standard, unrestricted, PolicyManager, default_policy, with_default, authorize,
  authorize_with_approval,
}
use term_bridge.Policy.Chain.{Some, approval_keeps_deny, removal_guarded}
use term_bridge.Policy.Input.{SomeBlocked, AllQuiet, input_decided}

-- Every pattern matches the lines that contain "boom".
abbrev is_match : Text → Text → Bool
is_match pattern line = contains line (codes "boom")

abbrev typed : Text
typed = codes "ls\n boom \n"

typed-denied : check_send_input is_match typed ≡ deny
unfolding check_send_input lines trim sudo_non_interactive_passthrough
typed-denied = refl

input_decided_example :
    ((check_send_input is_match typed ≡ deny) ↔ SomeBlocked is_match (lines typed))
    × ((check_send_input is_match typed ≡ allow) ↔ AllQuiet is_match (lines typed))
input_decided_example = input_decided is_match typed

abbrev manager : PolicyManager
manager = with_default is_match

abbrev typing : Action
typing = send_input (codes "s") typed

approval_keeps_deny_example :
    ((authorize_with_approval manager typing unrestricted ≡ deny)
      ↔ Some deny typing manager.policies)
    × ((authorize_with_approval manager typing standard ≡ authorize manager typing)
        × (authorize_with_approval manager typing unrestricted ≢ confirm))
approval_keeps_deny_example = approval_keeps_deny manager typing unrestricted

abbrev doomed_path : Text
doomed_path = codes "/tmp/../etc/ssh"

doomed-critical : any (under (normalize_remote_path_lexical doomed_path)) critical ≡ true
unfolding normalize_remote_path_lexical
doomed-critical = refl

abbrev guarded : PolicyManager
guarded = record { policies = default_policy is_match ∷ [] }

removal_guarded_example :
    (authorize_with_approval guarded (sftp_remove (codes "/tmp/x") false) standard ≢ allow)
    × (authorize_with_approval guarded (sftp_remove doomed_path true) unrestricted ≡ deny)
removal_guarded_example =
    removal_guarded is_match [] (codes "/tmp/x") false doomed_path unrestricted doomed-critical

-- The sudo pattern matches the lines that contain "sudo", and the others none.
abbrev is_sudo : Text → Text → Bool
is_sudo pattern line = eq_text pattern sudo_rule.pattern && contains line (codes "sudo")

abbrev exempt_line : Text
exempt_line = codes " sudo -n id"

exempt-allowed : check_send_input is_sudo exempt_line ≡ allow
unfolding check_send_input lines trim sudo_non_interactive_passthrough
exempt-allowed = refl

exempt-lines : lines exempt_line ≡ [] ++ (exempt_line ∷ [])
unfolding lines
exempt-lines = refl

exempt-filled : is_empty (trim exempt_line) ≡ false
unfolding trim
exempt-filled = refl

exempt-matched : is_sudo sudo_rule.pattern (trim exempt_line) ≡ true
unfolding trim
exempt-matched = refl
