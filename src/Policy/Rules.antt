-- ===== src/Policy/Rules.antt =====
-- src/domain/policy.rs: the actions and the decisions; src/application/policy.rs: the lists of
-- rules, and the checks of `DefaultPolicy`. The regex
-- crate is a parameter: whether a pattern matches a line.
use term_bridge.Prelude.{
  Bool, true, false, not, ◌&&◌, ◌||◌, Option, none, some, List, [], ◌∷◌, ◌++◌, if◌then◌else◌,
}
use term_bridge.Text.{Text, codes, slash, eq_text, starts_with, contains, any}
use term_bridge.PathPolicy.Lexical.{normalize_remote_path_lexical}
use term_bridge.Provider.{TransferDirection, upload, download}
use term_bridge.Policy.Lines.{trim, is_empty, lines, split_whitespace}

pub data Action : Type 0 where
  send_input : Text → Text → Action
  sftp_transfer : TransferDirection → Text → Text → Action
  sftp_remove : Text → Bool → Action
  sftp_chmod : Text → Text → Action

pub data Decision : Type 0 where
  allow confirm deny : Decision

-- A description, for the log and for the sudo rule, and the pattern.
pub record Rule : Type 0 where
  pub desc : Text
  pub pattern : Text

abbrev pub blocklist : List Rule
blocklist =
    record {
      desc = codes "rm -rf / (递归删根)";
      pattern = codes "rm\\s+-[a-zA-Z]*r[a-zA-Z]*f[a-zA-Z]*\\s+/(\\s|$)";
    }
    ∷ (record {
      desc = codes "rm -fr / (递归删根)";
      pattern = codes "rm\\s+-[a-zA-Z]*f[a-zA-Z]*r[a-zA-Z]*\\s+/(\\s|$)";
    }
        ∷ (record { desc = codes "mkfs (格式化)"; pattern = codes "\\bmkfs(\\.\\w+)?\\b" }
            ∷ (record { desc = codes "dd of=/dev/ (写设备)"; pattern = codes "\\bdd\\b.*\\bof=/dev/" }
                ∷ (record {
                  desc = codes "fork bomb :(){";
                  pattern = codes ":\\s*\\(\\s*\\)\\s*\\{";
                }
                    ∷ (record {
                      desc = codes "shutdown/reboot/halt/poweroff (关机重启)";
                      pattern = codes "\\b(shutdown|reboot|halt|poweroff|init\\s+0)\\b";
                    }
                        ∷ (record {
                          desc = codes "chmod -R 777 / (全局权限)";
                          pattern = codes "chmod\\s+-R\\s+777\\s+/(\\s|$)";
                        }
                            ∷ (record {
                              desc = codes "> /dev/ (重定向写设备)";
                              pattern = codes ">\\s*/dev/(sd|nvme|hd|vd|xvd|disk)";
                            }
                                ∷ (record {
                                  desc = codes "fork bomb :|:&";
                                  pattern = codes ":\\s*\\|\\s*:\\s*&";
                                }
                                    ∷ []))))))))

abbrev pub sudo_rule : Rule
sudo_rule = record { desc = codes "sudo (提权)"; pattern = codes "\\bsudo\\b" }

abbrev pub confirm_list : List Rule
confirm_list =
    record {
      desc = codes "rm -rf (递归删除)";
      pattern = codes "rm\\s+-[a-zA-Z]*r[a-zA-Z]*f[a-zA-Z]*\\s+\\S";
    }
    ∷ (record {
      desc = codes "rm -fr (递归删除)";
      pattern = codes "rm\\s+-[a-zA-Z]*f[a-zA-Z]*r[a-zA-Z]*\\s+\\S";
    }
        ∷ (sudo_rule
            ∷ (record { desc = codes "kill -9 (强杀)"; pattern = codes "\\bkill\\s+-9\\b" }
                ∷ (record { desc = codes "kill -KILL (强杀)"; pattern = codes "\\bkill\\s+-KILL\\b" }
                    ∷ (record { desc = codes "iptables (防火墙修改)"; pattern = codes "\\biptables\\b" }
                        ∷ (record {
                          desc = codes "crontab -r (删 cron)";
                          pattern = codes "\\bcrontab\\s+-r\\b";
                        }
                            ∷ []))))))

abbrev chain_markers : List Text
chain_markers =
    codes ";"
    ∷ (codes "&&"
        ∷ (codes "||"
            ∷ (codes "|" ∷ (codes "$(" ∷ (codes "`" ∷ (codes "<(" ∷ (codes ">(" ∷ [])))))))

abbrev pub sudo : Text
sudo = codes "sudo"

-- The words behind `sudo`.
abbrev after_sudo : List Text → Bool
after_sudo [] = false
after_sudo (t ∷ tokens) =
    (eq_text t (codes "-n") || eq_text t (codes "--non-interactive"))
    && not (any (eq_text sudo) tokens)

abbrev sudo_tokens : List Text → Bool
sudo_tokens [] = false
sudo_tokens (t ∷ tokens) = eq_text t sudo && after_sudo tokens

unfoldable pub sudo_non_interactive_passthrough : Text → Bool
unfolding trim split_whitespace
sudo_non_interactive_passthrough line =
    let trimmed = trim line in
    if any (contains trimmed) chain_markers then false else sudo_tokens (split_whitespace trimmed)

-- The sudo rule is skipped on such a line.
abbrev pub is_exempt : Text → Rule → Bool
is_exempt line rule = starts_with rule.desc sudo && sudo_non_interactive_passthrough line

module _ (is_match : Text → Text → Bool) where
  abbrev pub hits : Text → Rule → Bool
  hits line rule = is_match rule.pattern line

  unfoldable pub check_confirm : List Rule → Text → Option Decision
  check_confirm [] line = none
  check_confirm (rule ∷ rules) line =
      let rest = check_confirm rules line in
      if is_exempt line rule then rest else if hits line rule then some confirm else rest

  unfoldable pub check_line : Text → Option Decision
  unfolding check_confirm
  check_line line = if any (hits line) blocklist then some deny else check_confirm confirm_list line

  -- One line of the input, with the ends of the scan behind it for both results.
  abbrev pub on_line : Option Decision → Decision → Decision → Decision
  on_line (some deny) asked kept = deny
  on_line (some confirm) asked kept = asked
  on_line (some allow) asked kept = kept
  on_line none asked kept = kept

  unfoldable pub scan_lines : Decision → List Text → Decision
  unfolding check_line
  scan_lines result [] = result
  scan_lines result (line ∷ rest) =
      let trimmed = trim line in
      let asked = scan_lines confirm rest in
      let kept = scan_lines result rest in
      if is_empty trimmed then kept else on_line (check_line trimmed) asked kept

  unfoldable pub check_send_input : Text → Decision
  unfolding scan_lines
  check_send_input text = scan_lines allow (lines text)

abbrev pub under : Text → Text → Bool
under normalized p = eq_text normalized p || starts_with normalized (p ++ (slash ∷ []))

unfoldable pub check_sftp_transfer : TransferDirection → Text → Decision
check_sftp_transfer upload remote =
    if any (starts_with (normalize_remote_path_lexical remote))
      (codes "/dev/" ∷ (codes "/etc/" ∷ (codes "/boot/" ∷ (codes "/sys/" ∷ (codes "/proc/" ∷ [])))))
    then confirm
    else allow
check_sftp_transfer download remote = allow

abbrev pub critical : List Text
critical =
    codes "/"
    ∷ (codes "/etc"
        ∷ (codes "/usr"
            ∷ (codes "/var"
                ∷ (codes "/boot"
                    ∷ (codes "/sys"
                        ∷ (codes "/proc"
                            ∷ (codes "/lib" ∷ (codes "/bin" ∷ (codes "/sbin" ∷ [])))))))))

unfoldable pub check_sftp_remove : Text → Bool → Decision
check_sftp_remove remote true =
    if any (under (normalize_remote_path_lexical remote)) critical then deny else confirm
check_sftp_remove remote false = confirm

unfoldable pub check_sftp_chmod : Text → Text → Decision
check_sftp_chmod remote mode =
    if (eq_text mode (codes "777") || contains mode (codes "777"))
      && any (under (normalize_remote_path_lexical remote)) (
          codes "/etc"
          ∷ (codes "/var"
              ∷ (codes "/usr"
                  ∷ (codes "/boot"
                      ∷ (codes "/sys" ∷ (codes "/bin" ∷ (codes "/sbin" ∷ (codes "/lib" ∷ []))))))))
    then confirm
    else allow
