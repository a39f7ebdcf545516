-- ===== src/Sessions/Prompting.antt =====
-- src/application/sessions.rs: what an opening asks for, and in which case.
use term_bridge.Prelude.{◌≡◌, refl, Bool, true, false, Option, none, List, [], ◌∷◌, ◌++◌}
use term_bridge.Text.{Text}
use term_bridge.Provider.{PtySize, default_pty_size, Result, ok, err}
use term_bridge.HostPolicy.{
  AuthMode, key, password, auto, SessionMode, standard, persistent, unwrap_or,
}
use term_bridge.Session.{HandleKind, Clock}
use term_bridge.Sessions.{SessionManager}
use term_bridge.Sessions.Opening.{
  Host, Environment, OpenTerminalRequest, PasswordCredential, Asked, asked_config, asked_password,
  asked_open, remembered, resolve_auth_mode, resolve_session_mode, validate_auth_session_combo,
  request_password, if_password, is_persistent, open_with, open_resolved, open_session,
}

-- The password is asked for, and the user name remembered, only in the password mode and for a
-- session that is not persistent; a persistent session is opened without a password.
abbrev pub Proper : AuthMode → SessionMode → Asked → Type 0
Proper method mode (asked_config host_alias) = Unit
Proper method mode (asked_password hostname user) = (method ≡ password) × (mode ≡ standard)
Proper method mode (asked_open request) = request.persistent ≡ true → request.password ≡ none
Proper method mode (remembered hostname user) = (method ≡ password) × (mode ≡ standard)

abbrev pub AllProper : AuthMode → SessionMode → List Asked → Type 0
AllProper method mode [] = Unit
AllProper method mode (a ∷ asked) = Proper method mode a × AllProper method mode asked

AllProper-append :
    (method : AuthMode) (mode : SessionMode) (xs ys : List Asked)
    → AllProper method mode xs
    → AllProper method mode ys
    → AllProper method mode (xs ++ ys)
AllProper-append method mode [] ys hx hy = hy
AllProper-append method mode (x ∷ xs) ys (h, hx) hy = (h, AllProper-append method mode xs ys hx hy)

module _ (manager : SessionManager) (env : Environment) (now : Clock) where
  password_open :
      (asked : List Asked) (request : OpenTerminalRequest) (reply : Result HandleKind)
      → env.open_terminal request ≡ reply
      → (request.persistent ≡ true → request.password ≡ none)
      → AllProper password standard asked
      → AllProper password standard (open_with manager env now password asked request).asked
  password_open asked request (err e) h proper before =
      rw (open_with, h) (AllProper-append password standard asked _ before (proper, tt))
  password_open asked request (ok handle) h proper before =
      rw (open_with, h)
        (AllProper-append password standard (asked ++ (asked_open request ∷ [])) _
          (AllProper-append password standard asked _ before (proper, tt)) ((refl, refl), tt))

  plain_open :
      (method : AuthMode) (mode : SessionMode)
      (silent : (xs : List Asked) → if_password method xs ≡ [])
      → (asked : List Asked) (request : OpenTerminalRequest) (reply : Result HandleKind)
      → env.open_terminal request ≡ reply
      → request.password ≡ none
      → AllProper method mode asked
      → AllProper method mode (open_with manager env now method asked request).asked
  plain_open method mode silent asked request (err e) h bare before =
      rw (open_with, h) (AllProper-append method mode asked _ before ((λ _. bare), tt))
  plain_open method mode silent asked request (ok handle) h bare before =
      rw (open_with, h)
        (AllProper-append method mode (asked ++ (asked_open request ∷ [])) _
          (AllProper-append method mode asked _ before ((λ _. bare), tt))
          (rw (silent (remembered request.host.hostname request.host.user ∷ [])) tt))

  by_credential :
      (asked : List Asked) (size : PtySize) (name : Option Text) (host : Host)
      → (reply : Result PasswordCredential) → request_password env host ≡ reply
      → AllProper password standard asked
      → AllProper password standard
          (open_resolved manager env now password asked size false name host).asked
  by_credential asked size name host (err e) h before =
      rw (open_resolved, h) (AllProper-append password standard asked _ before ((refl, refl), tt))
  by_credential asked size name host (ok credential) h before =
      rw (open_resolved, h)
        (password_open _ _ _ refl (λ q. cc q)
          (AllProper-append password standard asked _ before ((refl, refl), tt)))

  by_method :
      (method : AuthMode) (mode : SessionMode) (asked : List Asked) (size : PtySize)
      → (name : Option Text) (host : Host) → validate_auth_session_combo method mode ≡ ok tt
      → AllProper method mode asked
      → AllProper method mode
          (open_resolved manager env now method asked size (is_persistent mode) name host).asked
  unfolding validate_auth_session_combo
  by_method password standard asked size name host c before =
      by_credential asked size name host _ refl before
  by_method password persistent asked size name host c before = cc c
  by_method key mode asked size name host c before =
      plain_open key mode (λ xs. refl) asked _ _ refl refl before
  by_method auto mode asked size name host c before =
      plain_open auto mode (λ xs. refl) asked _ _ refl refl before

  module _ (host_alias : Text) (size : Option PtySize) (explicit : Option Bool)
      (name : Option Text) where
    abbrev method : AuthMode
    method = resolve_auth_mode manager host_alias

    abbrev mode : SessionMode
    mode = resolve_session_mode manager host_alias explicit

    by_host :
        (r : Result Host)
        → env.resolve_host host_alias ≡ r
        → validate_auth_session_combo method mode ≡ ok tt
        → AllProper method mode (open_session manager env now host_alias size explicit name).asked
    unfolding open_session
    by_host (err e) h c = rw (open_session, c, h) (tt, tt)
    by_host (ok host) h c =
        rw (open_session, c, h)
          (by_method method mode (asked_config host_alias ∷ []) (unwrap_or size default_pty_size)
            name host c (tt, tt))

    by_combo :
        (r : Result Unit)
        → validate_auth_session_combo method mode ≡ r
        → AllProper method mode (open_session manager env now host_alias size explicit name).asked
    unfolding open_session
    by_combo (err e) c = rw (open_session, c) tt
    by_combo (ok x) c = by_host _ refl c

    -- An opening asks for a password, and remembers a user name, only if the host's mode is by
    -- password and the session is not persistent, and what it asks the provider to open as a
    -- persistent session comes without a password.
    pub open_session-AllProper :
        AllProper
          (resolve_auth_mode manager host_alias)
          (resolve_session_mode manager host_alias explicit)
          (open_session manager env now host_alias size explicit name).asked
    open_session-AllProper = by_combo _ refl
