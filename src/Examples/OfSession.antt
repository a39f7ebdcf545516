-- ===== src/Examples/OfSession.antt =====
-- A session with a small ring, and a clock that stands still.
use term_bridge.Prelude.{ℕ, ◌≡◌, refl, false, Option, none, some, List, [], ◌∷◌, arith}
use term_bridge.Text.{codes}
use term_bridge.Provider.{default_pty_size, ctrl_c, session_closed, ok, err}
use term_bridge.Policy.{standard}
use term_bridge.Engine.{OutputEngine, ReadOutputParams, Surroundings}
use term_bridge.Engine.Lines.{Match}
use term_bridge.Timeline.{Timeline}
use term_bridge.Session.{
  closed, ready, ssh_handle, running, Clock, Session, refused, close, send_input, send_control,
  resize, read_output, new_session, touch_last_activity,
}
use term_bridge.Session.Gate.{
  Op, turn, input, control, closes, outcome, run, CloseIsLast, run-CloseIsLast, close-refuses,
}
use term_bridge.Session.Steps.{
  Reach, here, next, touched, commanded, settled, IsSound, reached-IsSound,
}

abbrev pub noon : Clock
noon = record { secs = 43200; millis = 43200000 }

abbrev small_engine : OutputEngine
small_engine = record {
  buffer = record { buf = 0 ∷ (0 ∷ (0 ∷ (0 ∷ []))); size = 4; head = 0; written = 0 };
  mark_cursor = 0;
  strip_carry = record { armed = false; next_cursor = 0; pending = [] };
}

abbrev empty_timeline : Timeline
empty_timeline = record { events = []; next_command_id = 1; max_events = 3 }

abbrev pub live : Session
live = record {
  id = codes "sess_0";
  host = codes "prod";
  state = ready;
  pty_size = default_pty_size;
  output = small_engine;
  handle = ssh_handle;
  read_task = some running;
  last_activity = 43200;
  timeline = empty_timeline;
  created_at = 43200000;
  approval_mode = standard;
}

abbrev pub typed : List ℕ
typed = b'l' ∷ (b's' ∷ (10 ∷ []))

abbrev day : List Op
day =
    turn noon (1 ∷ (2 ∷ []))
    ∷ (input noon typed (ok tt)
        ∷ (closes noon noon (ok tt)
            ∷ (control noon ctrl_c (ok tt) ∷ (closes noon noon (ok tt) ∷ []))))

run-CloseIsLast_example : CloseIsLast (run live day).1
run-CloseIsLast_example = run-CloseIsLast live day

abbrev after_close : Session
after_close = (close live noon noon (ok tt)).session

abbrev compile : List ℕ → Option (Unit {0})
compile pattern = none

abbrev find : Unit {0} → List ℕ → Option Match
find r unread = none

abbrev last_lines : ReadOutputParams
last_lines = record {
  wait_for = none;
  tail_lines = some 3;
  since_cursor = none;
  max_bytes = none;
  context_lines = none;
  strip_ansi = false;
}

abbrev nobody : Surroundings
nobody = record { now = 0; first = record { before = []; between = [] }; waits = []; polls = [] }

close-refuses_example :
    (after_close.state ≡ closed)
    × (send_input after_close noon typed (ok tt) ≡ refused after_close)
    × (send_control after_close noon ctrl_c (ok tt) ≡ refused after_close)
    × (resize after_close default_pty_size (ok tt) ≡ refused after_close)
    × (read_output compile find after_close noon last_lines nobody
        ≡ some (after_close, err (session_closed after_close.id)))
    × (close after_close noon noon (ok tt)
        ≡ record { session = after_close; calls = []; result = ok tt })
close-refuses_example =
    close-refuses compile find live noon noon noon noon (ok tt) (ok tt) typed ctrl_c
      default_pty_size last_lines nobody refl after_close refl

abbrev fresh : Session
fresh = new_session noon (codes "sess_1") (codes "prod") default_pty_size ssh_handle

fresh_typed : Reach (settled fresh) (settled (outcome fresh (input noon typed (ok tt))).0)
unfolding send_input new_session
fresh_typed =
    next (next here (touched (settled fresh) noon.secs))
      (commanded (settled (touch_last_activity fresh noon)) noon.millis 0 typed (omega arith))

reached-IsSound_example : IsSound (settled (outcome fresh (input noon typed (ok tt))).0)
reached-IsSound_example =
    reached-IsSound noon (codes "sess_1") (codes "prod") default_pty_size ssh_handle
      (settled (outcome fresh (input noon typed (ok tt))).0) fresh_typed
