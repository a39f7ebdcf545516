-- ===== src/Sessions/Keeping.antt =====
-- src/application/sessions.rs: what no request but those that give an id changes.
use term_bridge.Prelude.{
  ◌≡◌, refl, ◌∙◌, ℕ, Bool-cases, Option, none, some, Option-cases, List, inl, inr,
}
use term_bridge.Text.{Text}
use term_bridge.Utf8.{from_utf8_lossy}
use term_bridge.Policy.Rules.{Action}
use term_bridge.Table.{lookup, insert, lookup-insert}
use term_bridge.Provider.{PtySize, session_closed, Result, ok, err}
use term_bridge.Session.{
  HandleKind, ssh_handle, persistent_handle, other_handle, Clock, Session, Done, SessionState,
  ReadTask, running, finished, read_turn, read_exit, is_closed, lost, close,
}
use term_bridge.Session
use term_bridge.Sessions.{
  SessionManager, put, take_out, get_session, after, on_session, cleanup_detached_session,
  check_policy, send_input, send_control, resize, prepare_for_raw_mode, close_session,
  set_approval_mode, read_output, write_raw,
}
use term_bridge.Engine.{ReadOutputParams, ReadOutputResult, Surroundings}
use term_bridge.Engine.Lines.{Match}
use term_bridge.Sessions.Reconnecting.{reopened, reopen, reconnect_on, reconnect_session}
use term_bridge.Sessions.Opening.{Host, Environment, detach_on, detach_session}
use term_bridge.Sessions.Reaper.{reap_idle, idle_ids, reap_ids-NoNewKeys}
use term_bridge.Sessions.Fresh.{NoNewKeys, NoNewKeys-update, NoNewKeys-remove}
use term_bridge.Sessions.Requests.{
  Request, inputs, controls, resizes, goes_raw, closes, approves, detaches, reaps, reads,
  writes_raw, reconnects, turns, exits, on_task, read_or_wait, serve,
}

-- Keeps the counter, and finds no key that was not there.
pub record Keeps (manager manager' : SessionManager) : Type 0 where
  pub counter : manager'.counter ≡ manager.counter
  pub keys : NoNewKeys manager.sessions manager'.sessions

Keeps-refl : (manager : SessionManager) → Keeps manager manager
Keeps-refl manager = record { counter = refl; keys = λ k gone. gone }

take_out-Keeps : (manager : SessionManager) (id : Text) → Keeps manager (take_out manager id)
take_out-Keeps manager id = record { counter = refl; keys = NoNewKeys-remove manager.sessions id }

module _ (manager : SessionManager) (id : Text) (session : Session)
    (there : lookup id manager.sessions ≡ some session) where
  put-Keeps : (new : Session) → Keeps manager (put manager id new)
  put-Keeps new = record {
    counter = refl;
    keys = NoNewKeys-update manager.sessions id session new there;
  }

  cleanup-Keeps :
      (new other : Session) → Keeps manager (cleanup_detached_session (put manager id new) id other)
  unfolding cleanup_detached_session
  cleanup-Keeps new other = elim (Bool-cases (is_closed other.state)) [
    | inl gone ↦ rw gone (record {
      counter = refl;
      keys = λ k h.
          NoNewKeys-remove (insert id new manager.sessions) id k
            (NoNewKeys-update manager.sessions id session new there k h);
    })
    | inr stays ↦ rw stays (put-Keeps new)
  ]

  with_result :
      (new : Session) (calls : List Session.HandleCall) (result : Result Unit)
      → Keeps manager (after manager id (record { session = new; calls = calls; result = result }))
  with_result new calls (ok x) = put-Keeps new
  with_result new calls (err (session_closed s)) = cleanup-Keeps new new
  with_result new calls (err e) = put-Keeps new

on_session-Keeps :
    (manager : SessionManager) (id : Text) (operate : Session → Done) (o : Option Session)
    → lookup id manager.sessions ≡ o
    → Keeps manager (on_session manager id operate).manager
unfolding get_session
on_session-Keeps manager id operate none h = rw (on_session, get_session, h) (Keeps-refl manager)
on_session-Keeps manager id operate (some session) h =
    rw (on_session, get_session, h)
      (with_result manager id session h (operate session).session (operate session).calls
        (operate session).result)

read_output-Keeps :
    {R : Type 0} (compile : List ℕ → Option R) (find : R → List ℕ → Option Match)
    (manager : SessionManager) (id : Text) (now : Clock) (params : ReadOutputParams)
    (surroundings : Surroundings)
    → Keeps manager
        (read_or_wait manager (read_output compile find manager id now params surroundings))
unfolding read_output get_session
read_output-Keeps compile find manager id now params surroundings =
    elim (Option-cases (lookup id manager.sessions)) [
      | inl none_there ↦ rw (read_output, get_session, none_there) (Keeps-refl manager)
      | inr (session, there) ↦
          by_read session there (Session.read_output compile find session now params surroundings)
            refl
    ]
  where
    by_read :
        (session : Session)
        → lookup id manager.sessions ≡ some session
        → (r : Option (Session × Result ReadOutputResult))
        → Session.read_output compile find session now params surroundings ≡ r
        → Keeps manager
            (read_or_wait manager (read_output compile find manager id now params surroundings))
    by_read session there none h = rw (read_output, get_session, there, h) (Keeps-refl manager)
    by_read session there (some (new, ok r)) h =
        rw (read_output, get_session, there, h) (put-Keeps manager id session there new)
    by_read session there (some (new, err (session_closed s))) h =
        rw (read_output, get_session, there, h) (cleanup-Keeps manager id session there new new)
    by_read session there (some (new, err e)) h =
        rw (read_output, get_session, there, h) (put-Keeps manager id session there new)

Keeps-trans : (a b c : SessionManager) → Keeps a b → Keeps b c → Keeps a c
Keeps-trans a b c f g = record {
  counter = g.counter ∙ f.counter;
  keys = λ k gone. g.keys k (f.keys k gone);
}

reopen-Keeps :
    (manager : SessionManager) (env : Environment) (id : Text) (now : Clock) (size : PtySize)
    → (host_name : Text) (session : Session) → lookup id manager.sessions ≡ some session
    → Keeps manager (reopen manager env id now size host_name).0
reopen-Keeps manager env id now size host_name session there =
    by_host (env.resolve_host host_name) refl
  where
    by_handle :
        (host : Host) (handle : Result HandleKind)
        → Keeps manager (reopened manager id now size host handle).0
    by_handle host (err e) = Keeps-refl manager
    by_handle host (ok handle) = put-Keeps manager id session there _

    by_host :
        (r : Result Host)
        → env.resolve_host host_name ≡ r
        → Keeps manager (reopen manager env id now size host_name).0
    by_host (err e) h = rw (reopen, h) (Keeps-refl manager)
    by_host (ok host) h = rw (reopen, h) (by_handle host _)

reconnect_session-Keeps :
    (manager : SessionManager) (env : Environment) (id : Text) (now : Clock) (reply : Result Unit)
    → Keeps manager (reconnect_session manager env id now reply).manager
unfolding reconnect_session get_session
reconnect_session-Keeps manager env id now reply =
    elim (Option-cases (lookup id manager.sessions)) [
      | inl none_there ↦ rw (reconnect_session, get_session, none_there) (Keeps-refl manager)
      | inr (session, there) ↦
          rw (reconnect_session, get_session, there) (by_state session there session.state)
    ]
  where
    by_state :
        (session : Session)
        → lookup id manager.sessions ≡ some session
        → (state : SessionState)
        → Keeps manager (reconnect_on manager env id now reply session state).manager
    by_state session there lost =
        let left = (close session now now reply).session in
        Keeps-trans manager (put manager id left) _ (put-Keeps manager id session there left) (
          reopen-Keeps (put manager id left) env id now session.pty_size session.host left
            (lookup-insert id left manager.sessions))
    by_state session there state = Keeps-refl manager

on_task-Keeps :
    (manager : SessionManager) (id : Text) (act : Session → Session)
    → Keeps manager (on_task manager id act)
on_task-Keeps manager id act = elim (Option-cases (lookup id manager.sessions)) [
  | inl none_there ↦ rw (on_task, none_there) (Keeps-refl manager)
  | inr (session, there) ↦ rw (on_task, there) (by_task session there session.read_task)
]
  where
    by_task :
        (session : Session)
        → lookup id manager.sessions ≡ some session
        → (task : Option ReadTask)
        → Keeps manager (elim task [
          | some running ↦ put manager id (act session)
          | some finished ↦ manager
          | none ↦ manager
        ])
    by_task session there none = Keeps-refl manager
    by_task session there (some running) = put-Keeps manager id session there (act session)
    by_task session there (some finished) = Keeps-refl manager

module _ {R : Type 0} (compile : List ℕ → Option R) (find : R → List ℕ → Option Match) where
  pub serve-Keeps :
      (manager : SessionManager) (r : Request) → Keeps manager (serve compile find manager r)
  unfolding send_input send_control resize prepare_for_raw_mode close_session set_approval_mode
      write_raw detach_session reap_idle get_session
  serve-Keeps manager (inputs id now data_in reply) =
      by_verdict (check_policy manager (Action.send_input id (from_utf8_lossy data_in))) refl
    where
      by_verdict :
          (verdict : Result Unit)
          → check_policy manager (Action.send_input id (from_utf8_lossy data_in)) ≡ verdict
          → Keeps manager (send_input manager id now data_in reply).manager
      by_verdict (err e) h = rw (send_input, h) (Keeps-refl manager)
      by_verdict (ok x) h = rw (send_input, h) (on_session-Keeps manager id _ _ refl)
  serve-Keeps manager (controls id now key reply) = on_session-Keeps manager id _ _ refl
  serve-Keeps manager (resizes id cols rows reply) = on_session-Keeps manager id _ _ refl
  serve-Keeps manager (goes_raw id) = elim (Option-cases (lookup id manager.sessions)) [
    | inl none_there ↦
        rw (serve, prepare_for_raw_mode, get_session, none_there) (Keeps-refl manager)
    | inr (session, there) ↦
        rw (serve, prepare_for_raw_mode, get_session, there) (put-Keeps manager id session there _)
  ]
  serve-Keeps manager (closes id now later reply) =
      elim (Option-cases (lookup id manager.sessions)) [
        | inl none_there ↦ rw (serve, close_session, none_there) (Keeps-refl manager)
        | inr (session, there) ↦ rw (serve, close_session, there) (take_out-Keeps manager id)
      ]
  serve-Keeps manager (approves id mode) = elim (Option-cases (lookup id manager.sessions)) [
    | inl none_there ↦ rw (serve, set_approval_mode, get_session, none_there) (Keeps-refl manager)
    | inr (session, there) ↦
        rw (serve, set_approval_mode, get_session, there) (put-Keeps manager id session there _)
  ]
  serve-Keeps manager (detaches id reply) = elim (Option-cases (lookup id manager.sessions)) [
    | inl none_there ↦ rw (serve, detach_session, get_session, none_there) (Keeps-refl manager)
    | inr (session, there) ↦
        rw (serve, detach_session, get_session, there) (by_kind session.handle reply)
  ]
    where
      by_kind :
          (kind : HandleKind) (reply : Result Unit)
          → Keeps manager (detach_on manager id kind reply).0
      by_kind persistent_handle (ok x) = take_out-Keeps manager id
      by_kind persistent_handle (err e) = Keeps-refl manager
      by_kind ssh_handle r = Keeps-refl manager
      by_kind other_handle r = Keeps-refl manager
  serve-Keeps manager (reaps now later timeout replies) = record {
    counter = refl;
    keys =
        reap_ids-NoNewKeys later timeout replies (idle_ids now timeout manager.sessions)
          manager.sessions;
  }
  serve-Keeps manager (reads id now params surroundings) =
      read_output-Keeps compile find manager id now params surroundings
  serve-Keeps manager (writes_raw id data_in reply) = by_session (get_session manager id) refl
    where
      by_session :
          (r : Result Session)
          → get_session manager id ≡ r
          → Keeps manager (write_raw manager id data_in reply).manager
      by_session (err e) h = rw (write_raw, h) (Keeps-refl manager)
      by_session (ok session) h = rw (write_raw, h) (Keeps-refl manager)
  serve-Keeps manager (reconnects env id now reply) =
      reconnect_session-Keeps manager env id now reply
  serve-Keeps manager (turns id now data_in) = on_task-Keeps manager id _
  serve-Keeps manager (exits id) = on_task-Keeps manager id _
