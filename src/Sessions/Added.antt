-- ===== src/Sessions/Added.antt =====
-- src/application/sessions.rs: an opening or an attachment fails, or adds a session.
use term_bridge.Prelude.{◌≡◌, refl, Bool, Option, none, some, List, [], ◌∷◌}
use term_bridge.Text.{Text}
use term_bridge.Provider.{PtySize, default_pty_size, TermError, Result, ok, err}
use term_bridge.HostPolicy.{AuthMode, key, password, auto, unwrap_or}
use term_bridge.Session.{HandleKind, Clock}
use term_bridge.Sessions.{SessionManager}
use term_bridge.Sessions.Opening.{
  Host, Environment, OpenTerminalRequest, PasswordCredential, Asked, Opened, resolve_auth_mode,
  resolve_session_mode, validate_auth_session_combo, request_password, add_session, asked_config,
  is_persistent, open_with, open_resolved, open_session, attached, attach_remote_session,
}

-- Nothing is changed and there is an error, or a session is added and its id returned.
pub data Opens (manager : SessionManager) (now : Clock) (opened : Opened) : Type 0 where
  failed :
      (e : TermError) → opened.result ≡ err e → opened.manager ≡ manager → Opens manager now opened
  added :
      (host : Text) (size : PtySize) (handle : HandleKind)
      → opened.result ≡ ok (add_session manager now host size handle).1
      → opened.manager ≡ (add_session manager now host size handle).0
      → Opens manager now opened

module _ (manager : SessionManager) (env : Environment) (now : Clock) where
  open_with-Opens :
      (method : AuthMode) (asked : List Asked) (request : OpenTerminalRequest)
      (reply : Result HandleKind)
      → env.open_terminal request ≡ reply
      → Opens manager now (open_with manager env now method asked request)
  open_with-Opens method asked request (err e) h =
      failed e (rw (open_with, h) refl) (rw (open_with, h) refl)
  open_with-Opens method asked request (ok handle) h =
      added request.host.name request.pty_size handle (rw (open_with, h) refl)
        (rw (open_with, h) refl)

  open_resolved-Opens :
      (method : AuthMode) (asked : List Asked) (size : PtySize) (lasting : Bool)
      (name : Option Text)
      → (host : Host) (reply : Result PasswordCredential) → request_password env host ≡ reply
      → Opens manager now (open_resolved manager env now method asked size lasting name host)
  open_resolved-Opens password asked size lasting name host (err e) h =
      failed e (rw (open_resolved, h) refl) (rw (open_resolved, h) refl)
  open_resolved-Opens password asked size lasting name host (ok credential) h =
      rw (open_resolved, h) (open_with-Opens password _ _ _ refl)
  open_resolved-Opens key asked size lasting name host reply h = open_with-Opens key _ _ _ refl
  open_resolved-Opens auto asked size lasting name host reply h = open_with-Opens auto _ _ _ refl

  pub open_session-Opens :
      (host_alias : Text) (size : Option PtySize) (explicit : Option Bool) (name : Option Text)
      → Opens manager now (open_session manager env now host_alias size explicit name)
  unfolding open_session
  open_session-Opens host_alias size explicit name = by_combo _ refl
    where
      by_host :
          (r : Result Host)
          → env.resolve_host host_alias ≡ r
          → validate_auth_session_combo
              (resolve_auth_mode manager host_alias)
              (resolve_session_mode manager host_alias explicit)
            ≡ ok tt
          → Opens manager now (open_session manager env now host_alias size explicit name)
      by_host (err e) h c = failed e (rw (open_session, c, h) refl) (rw (open_session, c, h) refl)
      by_host (ok host) h c =
          rw (open_session, c, h)
            (open_resolved-Opens (resolve_auth_mode manager host_alias)
              (asked_config host_alias ∷ []) (unwrap_or size default_pty_size)
              (is_persistent (resolve_session_mode manager host_alias explicit)) name host
              (request_password env host) refl)

      by_combo :
          (r : Result Unit)
          → validate_auth_session_combo
              (resolve_auth_mode manager host_alias)
              (resolve_session_mode manager host_alias explicit)
            ≡ r
          → Opens manager now (open_session manager env now host_alias size explicit name)
      by_combo (err e) c = failed e (rw (open_session, c) refl) (rw (open_session, c) refl)
      by_combo (ok x) c = by_host _ refl c

-- An attachment, as an opening that asks nothing of the user.
abbrev pub as_opened : SessionManager × Result Text → Opened
as_opened (manager, r) = record { manager = manager; asked = []; result = r }

pub attach_remote_session-Opens :
    (manager : SessionManager) (env : Environment) (now : Clock) (host_alias remote_id : Text)
    → Opens manager now (as_opened (attach_remote_session manager env now host_alias remote_id))
unfolding attach_remote_session
attach_remote_session-Opens manager env now host_alias remote_id =
    by_host (env.resolve_host host_alias) refl
  where
    by_handle :
        (host : Host) (r : Result HandleKind)
        → Opens manager now (as_opened (attached manager now host r))
    by_handle host (err e) = failed e refl refl
    by_handle host (ok handle) = added host.name default_pty_size handle refl refl

    by_provider :
        (host : Host)
        → env.resolve_host host_alias ≡ ok host
        → (provider : Option (Host → Text → Result HandleKind)) → env.attach ≡ provider
        → Opens manager now (as_opened (attach_remote_session manager env now host_alias remote_id))
    by_provider host h none p = rw (attach_remote_session, h, p) (failed _ refl refl)
    by_provider host h (some attach) p = rw (attach_remote_session, h, p) (by_handle host _)

    by_host :
        (r : Result Host)
        → env.resolve_host host_alias ≡ r
        → Opens manager now (as_opened (attach_remote_session manager env now host_alias remote_id))
    by_host (err e) h = rw (attach_remote_session, h) (failed e refl refl)
    by_host (ok host) h = by_provider host h env.attach refl
