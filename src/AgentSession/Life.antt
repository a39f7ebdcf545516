-- ===== src/AgentSession/Life.antt =====
-- agentd/src/session.rs: one session of the daemon over any sequence of calls and reads.
use term_bridge.Prelude.{◌≡◌, refl, ℕ, Bool, true, false, Option, List, [], ◌∷◌, ◌++◌}
use term_bridge.AgentSession.{
  SessionState, created, attached, detached, lost, Session, Result, ok, err, attach, detach,
  send_input, resize, PtyRead, bytes, would_block, eio, other_error, finish_lost, read_turn,
  ensure_alive,
}

-- A call of a client, or a read of the session's thread.
pub data Op : Type 0 where
  attaches : ℕ → Op
  detaches : Op
  inputs : List ℕ → Result Unit → ℕ → Op
  resizes : (rows cols : ℕ) → Result Unit → Op
  reads : (ℕ → Option ℕ) → PtyRead → ℕ → Op

-- A successful attach or detach.
pub data Mark : Type 0 where
  did_attach did_detach : Mark

abbrev mark_of : {A : Type 0} → Mark → Result A → List Mark
mark_of m (ok a) = m ∷ []
mark_of m (err e) = []

abbrev pub outcome : Session → Op → Session × List Mark
outcome s (attaches since) = let (s', r) = attach s since in (s', mark_of did_attach r)
outcome s detaches = let (s', r) = detach s in (s', mark_of did_detach r)
outcome s (inputs data_in reply now) = ((send_input s data_in reply now).0, [])
outcome s (resizes rows cols reply) = ((resize s rows cols reply).0, [])
outcome s (reads try_reap r now) = ((read_turn s try_reap r now).0, [])

unfoldable pub run : Session → List Op → Session × List Mark
run s [] = (s, [])
run s (op ∷ ops) =
    let first = outcome s op in let rest = run first.0 ops in (rest.0, first.1 ++ rest.1)

-- Attach and detach take turns, beginning as the state says.
abbrev pub Alternate : Bool → List Mark → Type 0
Alternate held [] = Unit
Alternate held (did_attach ∷ marks) = (held ≡ false) × Alternate true marks
Alternate held (did_detach ∷ marks) = (held ≡ true) × Alternate false marks

-- What a session looks like from its state, told from the successful calls: `held` says that the
-- last of them was an attach.
abbrev pub Held : Bool → SessionState → Type 0
Held held created = held ≡ false
Held held attached = held ≡ true
Held held detached = held ≡ false
Held held lost = Unit

send_input-state :
    (s : Session) (data_in : List ℕ) (reply : Result Unit) (now : ℕ)
    → (send_input s data_in reply now).0.state ≡ s.state
unfolding send_input
send_input-state s data_in reply now = by_life (ensure_alive s) refl reply
  where
    by_life :
        (r : Result Unit)
        → ensure_alive s ≡ r
        → (reply : Result Unit) → (send_input s data_in reply now).0.state ≡ s.state
    by_life (err e) h reply = rw (send_input, h) refl
    by_life (ok x) h (err e) = rw (send_input, h) refl
    by_life (ok x) h (ok y) = rw (send_input, h) refl

resize-state :
    (s : Session) (rows cols : ℕ) (reply : Result Unit)
    → (resize s rows cols reply).0.state ≡ s.state
unfolding resize
resize-state s rows cols reply = by_life (ensure_alive s) refl reply
  where
    by_life :
        (r : Result Unit)
        → ensure_alive s ≡ r
        → (reply : Result Unit) → (resize s rows cols reply).0.state ≡ s.state
    by_life (err e) h reply = rw (resize, h) refl
    by_life (ok x) h (err e) = rw (resize, h) refl
    by_life (ok x) h (ok y) = rw (resize, h) refl

-- A read leaves the state, or the session is lost.
Held-read :
    (held : Bool) (s : Session) (try_reap : ℕ → Option ℕ) (r : PtyRead) (now : ℕ)
    → Held held s.state
    → Held held (read_turn s try_reap r now).0.state
unfolding read_turn finish_lost
Held-read held s try_reap would_block now h = h
Held-read held s try_reap eio now h = tt
Held-read held s try_reap (other_error e) now h = tt
Held-read held s try_reap (bytes []) now h = tt
Held-read held s try_reap (bytes (b ∷ bs)) now h = h

module _ (ops : List Op)
    (ih : (held : Bool) (s : Session) → Held held s.state → Alternate held (run s ops).1) where
  attached-Alternate :
      (held : Bool) (s : Session) (since : ℕ) (state : SessionState)
      → s.state ≡ state
      → Held held state
      → Alternate held (run s (attaches since ∷ ops)).1
  unfolding run attach
  attached-Alternate held s since created e h = rw (run, attach, e) (h, ih true _ refl)
  attached-Alternate held s since detached e h = rw (run, attach, e) (h, ih true _ refl)
  attached-Alternate held s since attached e h = rw (run, attach, e) (ih held _ h)
  attached-Alternate held s since lost e h = rw (run, attach, e) (ih held _ h)

  detached-Alternate :
      (held : Bool) (s : Session) (state : SessionState)
      → s.state ≡ state
      → Held held state
      → Alternate held (run s (detaches ∷ ops)).1
  unfolding run detach
  detached-Alternate held s created e h = rw (run, detach, e) (ih held _ h)
  detached-Alternate held s detached e h = rw (run, detach, e) (ih held _ h)
  detached-Alternate held s attached e h = rw (run, detach, e) (h, ih false _ refl)
  detached-Alternate held s lost e h = rw (run, detach, e) (ih held _ h)

-- Over any sequence of calls of clients and reads of the PTY, the successful attaches and
-- detaches of a session take turns, beginning as its state says: a session that is held by a
-- client is given to no other before it is detached.
pub run-Alternate :
    (held : Bool) (s : Session) (ops : List Op) → Held held s.state → Alternate held (run s ops).1
unfolding run
run-Alternate held s [] h = tt
run-Alternate held s (attaches since ∷ ops) h =
    attached-Alternate ops (λ held' s'. run-Alternate held' s' ops) held s since s.state refl h
run-Alternate held s (detaches ∷ ops) h =
    detached-Alternate ops (λ held' s'. run-Alternate held' s' ops) held s s.state refl h
run-Alternate held s (inputs d reply now ∷ ops) h =
    run-Alternate held (send_input s d reply now).0 ops (rw (send_input-state s d reply now) h)
run-Alternate held s (resizes rows cols reply ∷ ops) h =
    run-Alternate held (resize s rows cols reply).0 ops (rw (resize-state s rows cols reply) h)
run-Alternate held s (reads try_reap r now ∷ ops) h =
    run-Alternate held (read_turn s try_reap r now).0 ops (Held-read held s try_reap r now h)
