-- ===== src/Policy/Input.antt =====
-- What `DefaultPolicy` decides on typed input.
use term_bridge.Prelude.{
  ◌≡◌, ◌≢◌, ◌↔◌, ◌⊎◌, inl, inr, refl, Bool, true, false, none, some, List, [], ◌∷◌, ◌++◌,
  Bool-cases,
}
use term_bridge.Text.{Text, any}
use term_bridge.Policy.Lines.{trim, is_empty, lines}
use term_bridge.Policy.Rules.{
  Decision, allow, confirm, deny, Rule, blocklist, confirm_list, is_exempt, hits, check_confirm,
  check_line, scan_lines, check_send_input, sudo_rule, sudo_non_interactive_passthrough,
}

-- No rule of the list asks on this line: each is the sudo rule on an exempt line, or does not hit.
abbrev pub Unasked : (Text → Text → Bool) → Text → List Rule → Type 0
Unasked is_match line [] = Unit
Unasked is_match line (rule ∷ rules) =
    ((is_exempt line rule ≡ true) ⊎ (hits is_match line rule ≡ false)) × Unasked is_match line rules

abbrev pub Blocked : (Text → Text → Bool) → Text → Type 0
Blocked is_match line = any (hits is_match line) blocklist ≡ true

abbrev pub Quiet : (Text → Text → Bool) → Text → Type 0
Quiet is_match line =
    (any (hits is_match line) blocklist ≡ false) × Unasked is_match line confirm_list

-- Some line that is not blank is blocked.
pub data SomeBlocked (is_match : Text → Text → Bool) : List Text → Type 0 where
  here :
      (line : Text) (rest : List Text)
      → is_empty (trim line) ≡ false
      → Blocked is_match (trim line)
      → SomeBlocked is_match (line ∷ rest)
  there :
      (line : Text) (rest : List Text)
      → SomeBlocked is_match rest
      → SomeBlocked is_match (line ∷ rest)

-- Every line is blank or quiet.
abbrev pub AllQuiet : (Text → Text → Bool) → List Text → Type 0
AllQuiet is_match [] = Unit
AllQuiet is_match (line ∷ rest) =
    ((is_empty (trim line) ≡ true) ⊎ Quiet is_match (trim line)) × AllQuiet is_match rest

module _ (is_match : Text → Text → Bool) where
  -- The rules that ask either ask or do nothing.
  check_confirm-cases :
      (rules : List Rule) (line : Text)
      → ((check_confirm is_match rules line ≡ none) × Unasked is_match line rules)
        ⊎ ((check_confirm is_match rules line ≡ some confirm) × (Unasked is_match line rules → ⊥))
  unfolding check_confirm
  check_confirm-cases [] line = inl (refl, tt)
  check_confirm-cases (rule ∷ rules) line = elim (Bool-cases (is_exempt line rule)) [
    | inl e ↦ elim (check_confirm-cases rules line) [
      | inl (n, u) ↦ inl (rw e n, (inl e, u))
      | inr (c, u) ↦ inr (rw e c, λ q. u q.1)
    ]
    | inr g ↦ elim (Bool-cases (hits is_match line rule)) [
      | inl t ↦ inr (rw (g, t) refl, λ q. asks g t q.0)
      | inr f ↦ elim (check_confirm-cases rules line) [
        | inl (n, u) ↦ inl (rw (g, f) n, (inr f, u))
        | inr (c, u) ↦ inr (rw (g, f) c, λ q. u q.1)
      ]
    ]
  ]
    where
      asks :
          is_exempt line rule ≡ false
          → hits is_match line rule ≡ true
          → (is_exempt line rule ≡ true) ⊎ (hits is_match line rule ≡ false)
          → ⊥
      asks g t (inl e) = cc
      asks g t (inr f) = cc

  -- A line is blocked, or else is quiet, or else asks.
  check_line-cases :
      (line : Text)
      → ((check_line is_match line ≡ some deny) × Blocked is_match line)
        ⊎ (((check_line is_match line ≡ none) × Quiet is_match line)
            ⊎ ((check_line is_match line ≡ some confirm)
                × ((any (hits is_match line) blocklist ≡ false) × (Quiet is_match line → ⊥))))
  unfolding check_line
  check_line-cases line = elim (Bool-cases (any (hits is_match line) blocklist)) [
    | inl t ↦ inl (rw t refl, t)
    | inr f ↦ elim (check_confirm-cases confirm_list line) [
      | inl (n, u) ↦ inr (inl (rw f n, (f, u)))
      | inr (c, u) ↦ inr (inr (rw f c, (f, λ q. u q.1)))
    ]
  ]

  scan-SomeBlocked :
      (r : Decision) (ls : List Text)
      → r ≢ deny
      → scan_lines is_match r ls ≡ deny
      → SomeBlocked is_match ls
  unfolding scan_lines
  scan-SomeBlocked r [] n h = absurd (n h)
  scan-SomeBlocked r (line ∷ rest) n h = elim (Bool-cases (is_empty (trim line))) [
    | inl e ↦ there line rest (scan-SomeBlocked r rest n (rw e at h))
    | inr f ↦ elim (check_line-cases (trim line)) [
      | inl (d, b) ↦ here line rest f b
      | inr (inl (q, _)) ↦ there line rest (scan-SomeBlocked r rest n (rw (f, q) at h))
      | inr (inr (c, _)) ↦
          there line rest (scan-SomeBlocked confirm rest (λ q. cc) (rw (f, c) at h))
    ]
  ]

  SomeBlocked-scan :
      (r : Decision) (ls : List Text) → SomeBlocked is_match ls → scan_lines is_match r ls ≡ deny
  unfolding scan_lines
  SomeBlocked-scan r [] s = elim s [ ]
  SomeBlocked-scan r (line ∷ rest) (here _ _ f b) = elim (check_line-cases (trim line)) [
    | inl (d, _) ↦ rw (f, d) refl
    | inr (inl (_, q)) ↦ cc (b, q.0)
    | inr (inr (_, q)) ↦ cc (b, q.0)
  ]
  SomeBlocked-scan r (line ∷ rest) (there _ _ s) = elim (Bool-cases (is_empty (trim line))) [
    | inl e ↦ rw e (SomeBlocked-scan r rest s)
    | inr f ↦ elim (check_line-cases (trim line)) [
      | inl (d, _) ↦ rw (f, d) refl
      | inr (inl (q, _)) ↦ rw (f, q) (SomeBlocked-scan r rest s)
      | inr (inr (c, _)) ↦ rw (f, c) (SomeBlocked-scan confirm rest s)
    ]
  ]

  scan-AllQuiet :
      (r : Decision) (ls : List Text)
      → scan_lines is_match r ls ≡ allow
      → (r ≡ allow) × AllQuiet is_match ls
  unfolding scan_lines
  scan-AllQuiet r [] h = (h, tt)
  scan-AllQuiet r (line ∷ rest) h = elim (Bool-cases (is_empty (trim line))) [
    | inl e ↦ let (same, all) = scan-AllQuiet r rest (rw e at h) in (same, (inl e, all))
    | inr f ↦ elim (check_line-cases (trim line)) [
      | inl (d, _) ↦ cc (rw (f, d) at h)
      | inr (inl (n, q)) ↦
          let (same, all) = scan-AllQuiet r rest (rw (f, n) at h) in (same, (inr q, all))
      | inr (inr (c, _)) ↦ asked (scan-AllQuiet confirm rest (rw (f, c) at h)).0
    ]
  ]
    where
      asked : confirm ≡ allow → (r ≡ allow) × AllQuiet is_match (line ∷ rest)
      asked q = cc

  AllQuiet-scan : (ls : List Text) → AllQuiet is_match ls → scan_lines is_match allow ls ≡ allow
  unfolding scan_lines
  AllQuiet-scan [] h = refl
  AllQuiet-scan (line ∷ rest) (inl e, all) = rw e (AllQuiet-scan rest all)
  AllQuiet-scan (line ∷ rest) (inr q, all) = elim (Bool-cases (is_empty (trim line))) [
    | inl e ↦ rw e (AllQuiet-scan rest all)
    | inr f ↦ elim (check_line-cases (trim line)) [
      | inl (_, b) ↦ cc (b, q.0)
      | inr (inl (n, _)) ↦ rw (f, n) (AllQuiet-scan rest all)
      | inr (inr (_, (_, loud))) ↦ absurd (loud q)
    ]
  ]

  -- Input is denied exactly if one of its lines that are not blank hits the blocklist, and
  -- allowed exactly if on none of them a rule hits, but perhaps the sudo rule on a line that is
  -- one call of sudo without a password prompt.
  pub input_decided :
      (text : Text)
      → ((check_send_input is_match text ≡ deny) ↔ SomeBlocked is_match (lines text))
        × ((check_send_input is_match text ≡ allow) ↔ AllQuiet is_match (lines text))
  unfolding check_send_input
  input_decided text = (
    (scan-SomeBlocked allow (lines text) (λ q. cc), SomeBlocked-scan allow (lines text)),
    (λ h. (scan-AllQuiet allow (lines text) h).1, AllQuiet-scan (lines text)),
  )

  line-Quiet :
      (before after : List Text) (line : Text)
      → AllQuiet is_match (before ++ (line ∷ after))
      → is_empty (trim line) ≡ false
      → Quiet is_match (trim line)
  line-Quiet [] after line (inl e, all) f = cc
  line-Quiet [] after line (inr q, all) f = q
  line-Quiet (b ∷ before) after line (_, all) f = line-Quiet before after line all f

  sudo_rule-Unasked :
      (line : Text)
      → Unasked is_match line confirm_list
      → hits is_match line sudo_rule ≡ true
      → sudo_non_interactive_passthrough line ≡ true
  sudo_rule-Unasked line (_, (_, (inl e, rest))) h = e
  sudo_rule-Unasked line (_, (_, (inr f, rest))) h = cc

  -- Where input is allowed, a line of it that is not blank and on which the sudo pattern matches
  -- is one single call of sudo that does not ask for a password.
  pub sudo_let_through :
      (text : Text) (before after : List Text) (line : Text)
      → check_send_input is_match text ≡ allow
      → lines text ≡ before ++ (line ∷ after)
      → is_empty (trim line) ≡ false
      → is_match sudo_rule.pattern (trim line) ≡ true
      → sudo_non_interactive_passthrough (trim line) ≡ true
  sudo_let_through text before after line passed at_line filled matched =
      sudo_rule-Unasked (trim line)
        (line-Quiet before after line (rw at_line at ((input_decided text).1.0 passed)) filled).1
        matched
