-- ===== src/Session/Steps.antt =====
-- src/domain/session.rs: the steps of the threads that share a session, each as small as the locks
-- and atomics make it: the checks, stores and records of one operation may have those of others
-- between them. The read task's turn is a write and a record.
use term_bridge.Prelude.{
  ℕ, ◌+◌, ◌%◌, subst, ◌≤◌, ◌<◌, Option, none, some, List, length, ◌≡◌, ◌≢◌, refl, ◌⊎◌, inl, inr,
  ◌==◌, Bool-cases, arith,
}
use term_bridge.Text.{Text}
use term_bridge.Policy.{ApprovalMode}
use term_bridge.Ring.{u64, write, new, new_raw}
use term_bridge.Ring.History.{written-write}
use term_bridge.Engine.{OutputEngine, new_engine}
use term_bridge.Timeline.{
  record_command, record_output, record_control, record_state_change, Timeline, output_event,
  control_event, state_change_event, command_event, push, new_timeline, with_capacity,
  truncate_utf8, max_command_input,
}
use term_bridge.Session.Tiles.{TilesFrom, TilesFrom-more, push-TilesFrom}
use term_bridge.Session.{
  creating, closing, closed, lost, running, HandleKind, Clock, Session, with_state, with_timeline,
  write_chunk, read_exit, abort_read_task, is_usable, new_session,
}
use term_bridge.Provider.{PtySize}

-- A session, and the write that the read task has made and not recorded yet: the cursor before it,
-- and its length.
pub record Shared : Type 0 where
  pub session : Session
  pub unrecorded : Option (ℕ × ℕ)

abbrev pub settled : Session → Shared
settled s = record { session = s; unrecorded = none }

-- Up to where the outputs are recorded.
abbrev pub recorded_at : ℕ → Option (ℕ × ℕ) → ℕ
recorded_at written none = written
recorded_at written (some (start, bytes)) = start

abbrev pub recorded_to : Shared → ℕ
recorded_to x = recorded_at x.session.output.buffer.written x.unrecorded

pub data Step : Shared → Shared → Type 0 where
  arrives :
      (s : Session) (data_in : List ℕ)
      → s.read_task ≡ some running
      → s.output.buffer.written + length data_in < u64
      → Step (settled s) (record {
        session = write_chunk s data_in;
        unrecorded = some (s.output.buffer.written, length data_in);
      })
  noted :
      (s : Session) (millis start bytes : ℕ)
      → Step
          (record { session = s; unrecorded = some (start, bytes) })
          (settled
            (with_timeline s (record_output s.timeline millis start s.output.buffer.written bytes)))
  ends : (s : Session) → s.read_task ≡ some running → Step (settled s) (settled (read_exit s))
  -- The cursor was read earlier.
  commanded :
      (x : Shared) (millis cursor : ℕ) (data_in : List ℕ)
      → cursor ≤ x.session.output.buffer.written
      → Step x (record x {
        session =
            with_timeline x.session (record_command x.session.timeline millis data_in cursor).0;
      })
  controlled :
      (x : Shared) (millis : ℕ) (key : Text)
      → Step x (record x {
        session = with_timeline x.session (record_control x.session.timeline millis key);
      })
  changed :
      (x : Shared) (millis : ℕ) (from to : Text)
      → Step x (record x {
        session = with_timeline x.session (record_state_change x.session.timeline millis from to);
      })
  -- Any call of `close` may be between its check and its first store.
  begins : (x : Shared) → Step x (record x { session = with_state x.session closing })
  aborted : (x : Shared) → Step x (record x { session = abort_read_task x.session })
  -- Behind the handle's `close`, in a call that stored `Closing`.
  ended :
      (x : Shared)
      → (x.session.state ≡ closing) ⊎ (x.session.state ≡ closed)
      → Step x (record x { session = with_state x.session closed })
  -- A read moves the mark and the carry of the engine.
  peeked :
      (x : Shared) (e : OutputEngine)
      → e.buffer ≡ x.session.output.buffer
      → Step x (record x { session = record (x.session) { output = e } })
  touched :
      (x : Shared) (secs : ℕ)
      → Step x (record x { session = record (x.session) { last_activity = secs } })
  approved :
      (x : Shared) (mode : ApprovalMode)
      → Step x (record x { session = record (x.session) { approval_mode = mode } })

pub data Reach (x : Shared) : Shared → Type 0 where
  here : Reach x x
  next : {y z : Shared} → Reach x y → Step y z → Reach x z

-- A pending record is of the last write.
abbrev Pending : ℕ → Option (ℕ × ℕ) → Type 0
Pending written none = Unit
Pending written (some (start, bytes)) = written ≡ start + bytes

pub record IsSound (x : Shared) : Type 0 where
  pub created : x.session.state ≢ creating
  pub lost_is_over : x.session.state ≡ lost → x.session.read_task ≢ some running
  pub pending : Pending x.session.output.buffer.written x.unrecorded
  pub tiles : TilesFrom (recorded_to x) x.session.output.buffer.written x.session.timeline.events

-- One more output behind the tiled events.
record_output-TilesFrom :
    (millis start end bytes : ℕ) (t : Timeline) (written : ℕ)
    → end ≡ start + bytes
    → TilesFrom start written t.events
    → TilesFrom end written (record_output t millis start end bytes).events
unfolding record_output
record_output-TilesFrom millis start end bytes t written e tiles = elim (Bool-cases (bytes == 0)) [
  | inl nothing ↦ rw nothing (subst (λ c. TilesFrom c written t.events) (ground arith) tiles)
  | inr some_bytes ↦ rw some_bytes (
      push-TilesFrom start end written t (output_event millis start end bytes) tiles
        (refl, e, ground arith, refl))
]

-- The states that no thread stores, and the end of the read task.
read_exit-states :
    (s : Session)
    → s.state ≢ creating
    → ((read_exit s).state ≢ creating) × ((read_exit s).read_task ≢ some running)
unfolding read_exit
read_exit-states s h = elim (Bool-cases (is_usable s.state)) [
  | inl usable ↦ rw usable ((λ e. cc e), (λ e. cc e))
  | inr not_usable ↦ rw not_usable (h, (λ e. cc e))
]

Step-IsSound : {x y : Shared} → Step x y → IsSound x → IsSound y
unfolding read_exit record_command record_control record_state_change abort_read_task
Step-IsSound (arrives s d task fits) h =
    let grown : (write s.output.buffer d).written ≡ s.output.buffer.written + length d =
      omega (arith, written-write s.output.buffer d (omega arith)) in
    record {
      created = h.created;
      lost_is_over = h.lost_is_over;
      pending = grown;
      tiles =
          TilesFrom-more s.output.buffer.written s.output.buffer.written
            (write s.output.buffer d).written s.timeline.events (omega arith) h.tiles;
    }
Step-IsSound (noted s millis start bytes) h = record {
  created = h.created;
  lost_is_over = h.lost_is_over;
  pending = tt;
  tiles =
      record_output-TilesFrom millis start s.output.buffer.written bytes s.timeline
        s.output.buffer.written h.pending h.tiles;
}
Step-IsSound (ends s task) h = record {
  created = (read_exit-states s h.created).0;
  lost_is_over = λ e. (read_exit-states s h.created).1;
  pending = tt;
  tiles = h.tiles;
}
Step-IsSound (commanded x millis cursor d le) h = record {
  created = h.created;
  lost_is_over = h.lost_is_over;
  pending = h.pending;
  tiles =
      push-TilesFrom (recorded_to x) (recorded_to x) x.session.output.buffer.written
        (record (x.session.timeline) {
          next_command_id = (x.session.timeline.next_command_id + 1) % u64;
        })
        (command_event millis x.session.timeline.next_command_id (truncate_utf8 d max_command_input)
          cursor)
        h.tiles (le, refl);
}
Step-IsSound (controlled x millis key) h = record {
  created = h.created;
  lost_is_over = h.lost_is_over;
  pending = h.pending;
  tiles =
      push-TilesFrom (recorded_to x) (recorded_to x) x.session.output.buffer.written
        x.session.timeline (control_event millis key) h.tiles refl;
}
Step-IsSound (changed x millis from to) h = record {
  created = h.created;
  lost_is_over = h.lost_is_over;
  pending = h.pending;
  tiles =
      push-TilesFrom (recorded_to x) (recorded_to x) x.session.output.buffer.written
        x.session.timeline (state_change_event millis from to) h.tiles refl;
}
Step-IsSound (begins x) h = record {
  created = λ e. cc e;
  lost_is_over = λ e. cc e;
  pending = h.pending;
  tiles = h.tiles;
}
Step-IsSound (aborted x) h = record {
  created = h.created;
  lost_is_over = λ e f. cc f;
  pending = h.pending;
  tiles = h.tiles;
}
Step-IsSound (ended x was) h = record {
  created = λ e. cc e;
  lost_is_over = λ e. cc e;
  pending = h.pending;
  tiles = h.tiles;
}
Step-IsSound (peeked x e same) h = record {
  created = h.created;
  lost_is_over = h.lost_is_over;
  pending = rw same h.pending;
  tiles = rw same h.tiles;
}
Step-IsSound (touched x secs) h = record {
  created = h.created;
  lost_is_over = h.lost_is_over;
  pending = h.pending;
  tiles = h.tiles;
}
Step-IsSound (approved x mode) h = record {
  created = h.created;
  lost_is_over = h.lost_is_over;
  pending = h.pending;
  tiles = h.tiles;
}

new_session-IsSound :
    (now : Clock) (id host : Text) (size : PtySize) (handle : HandleKind)
    → IsSound (settled (new_session now id host size handle))
unfolding new_session record_state_change push new_timeline with_capacity new_engine new new_raw
new_session-IsSound now id host size handle = record {
  created = λ e. cc e;
  lost_is_over = λ e. cc e;
  pending = tt;
  tiles = (0, refl);
}

Reach-IsSound : {x y : Shared} → IsSound x → Reach x y → IsSound y
Reach-IsSound h here = h
Reach-IsSound h (next r st) = Step-IsSound st (Reach-IsSound h r)

-- Whatever steps the threads of a session take after `Session::new`, in any order, while fewer
-- than 2 ^ 64 bytes are written: the session is never `Creating`, no read task runs where it is
-- `Lost`, and in its timeline the outputs follow one another without a gap up to the last
-- recorded byte, each of them as long as its count says, with no command sent later than at the
-- written cursor.
pub reached-IsSound :
    (now : Clock) (id host : Text) (size : PtySize) (handle : HandleKind) (x : Shared)
    → Reach (settled (new_session now id host size handle)) x
    → IsSound x
reached-IsSound now id host size handle x r =
    Reach-IsSound (new_session-IsSound now id host size handle) r
