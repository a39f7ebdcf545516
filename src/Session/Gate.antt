-- ===== src/Session/Gate.antt =====
-- src/domain/session.rs: the operations of one session in sequence, and the calls that they make
-- of the handle.
use term_bridge.Prelude.{
  ℕ, Bool-cases, false, Option, some, List, [], ◌∷◌, ◌++◌, ◌≡◌, refl, inl, inr,
}
use term_bridge.Provider.{PtySize, ControlKey, session_closed, Result, ok, err}
use term_bridge.Policy.{ApprovalMode}
use term_bridge.Engine.{ReadOutputParams, Surroundings}
use term_bridge.Engine.Lines.{Match}
use term_bridge.Session.{
  closed, is_closed, is_usable, HandleCall, handle_write, handle_send_control, handle_resize,
  handle_close, Clock, Session, refused, read_turn, read_exit, set_approval_mode, abort_read_task,
  send_input, send_control, resize, close, end_close, read_output,
}

-- A call of an operation, or a turn of the read task, one after the other.
pub data Op : Type 0 where
  turn : Clock → List ℕ → Op
  read_task_ends : Op
  input : Clock → List ℕ → Result Unit → Op
  control : Clock → ControlKey → Result Unit → Op
  resized : PtySize → Result Unit → Op
  closes : Clock → Clock → Result Unit → Op
  aborts : Op
  approves : ApprovalMode → Op

abbrev pub outcome : Session → Op → Session × List HandleCall
outcome s (turn now data_in) = (read_turn s now data_in, [])
outcome s read_task_ends = (read_exit s, [])
outcome s (input now data_in reply) =
    let done = send_input s now data_in reply in (done.session, done.calls)
outcome s (control now key reply) =
    let done = send_control s now key reply in (done.session, done.calls)
outcome s (resized size reply) = let done = resize s size reply in (done.session, done.calls)
outcome s (closes now later reply) =
    let done = close s now later reply in (done.session, done.calls)
outcome s aborts = (abort_read_task s, [])
outcome s (approves mode) = (set_approval_mode s mode, [])

unfoldable pub run : Session → List Op → Session × List HandleCall
run s [] = (s, [])
run s (op ∷ ops) =
    let first = outcome s op in let rest = run first.0 ops in (rest.0, first.1 ++ rest.1)

-- No call of the handle follows its `close`.
abbrev pub CloseIsLast : List HandleCall → Type 0
CloseIsLast [] = Unit
CloseIsLast (handle_write d ∷ calls) = CloseIsLast calls
CloseIsLast (handle_send_control key ∷ calls) = CloseIsLast calls
CloseIsLast (handle_resize size ∷ calls) = CloseIsLast calls
CloseIsLast (handle_close ∷ calls) = calls ≡ []

-- A session that is closed stays so and calls nothing.
closed-outcome :
    (s : Session) (op : Op)
    → s.state ≡ closed
    → ((outcome s op).0.state ≡ closed) × ((outcome s op).1 ≡ [])
unfolding read_turn read_exit send_input send_control resize close abort_read_task set_approval_mode
closed-outcome s (turn now d) h = (h, refl)
closed-outcome s read_task_ends h = rw h (refl, refl)
closed-outcome s (input now d reply) h = rw h (refl, refl)
closed-outcome s (control now key reply) h = rw h (refl, refl)
closed-outcome s (resized size reply) h = rw h (refl, refl)
closed-outcome s (closes now later reply) h = rw h (refl, refl)
closed-outcome s aborts h = (h, refl)
closed-outcome s (approves mode) h = (h, refl)

closed-run : (s : Session) (ops : List Op) → s.state ≡ closed → (run s ops).1 ≡ []
unfolding run
closed-run s [] h = refl
closed-run s (op ∷ ops) h =
    let (stays, silent) = closed-outcome s op h in rw silent (closed-run (outcome s op).0 ops stays)

-- For a session in any state, and operations, turns of the read task and its end in any order,
-- no call of the terminal handle comes after its `close`.
pub run-CloseIsLast : (s : Session) (ops : List Op) → CloseIsLast (run s ops).1
unfolding run send_input send_control resize close
run-CloseIsLast s [] = tt
run-CloseIsLast s (turn now d ∷ ops) = run-CloseIsLast (outcome s (turn now d)).0 ops
run-CloseIsLast s (read_task_ends ∷ ops) = run-CloseIsLast (outcome s read_task_ends).0 ops
run-CloseIsLast s (input now d reply ∷ ops) =
    let ih = run-CloseIsLast (outcome s (input now d reply)).0 ops in
    elim (Bool-cases (is_usable s.state)) [
      | inl usable ↦ rw usable (rw usable at ih)
      | inr not_usable ↦ rw not_usable (rw not_usable at ih)
    ]
run-CloseIsLast s (control now key reply ∷ ops) =
    let ih = run-CloseIsLast (outcome s (control now key reply)).0 ops in
    elim (Bool-cases (is_usable s.state)) [
      | inl usable ↦ rw usable (rw usable at ih)
      | inr not_usable ↦ rw not_usable (rw not_usable at ih)
    ]
run-CloseIsLast s (resized size reply ∷ ops) =
    let ih = run-CloseIsLast (outcome s (resized size reply)).0 ops in
    elim (Bool-cases (is_usable s.state)) [
      | inl usable ↦ rw usable (rw usable at ih)
      | inr not_usable ↦ rw not_usable (rw not_usable at ih)
    ]
run-CloseIsLast s (closes now later reply ∷ ops) =
    let ih = run-CloseIsLast (outcome s (closes now later reply)).0 ops in
    let next = (close s now later reply).session in
    let silent = closed-run next ops in
    elim (Bool-cases (is_closed s.state)) [
      | inl done ↦ rw done (rw done at ih)
      | inr not_done ↦ rw not_done (rw not_done at silent refl)
    ]
run-CloseIsLast s (aborts ∷ ops) = run-CloseIsLast (outcome s aborts).0 ops
run-CloseIsLast s (approves mode ∷ ops) = run-CloseIsLast (outcome s (approves mode)).0 ops

module _ {R : Type 0} (compile : List ℕ → Option R) (find : R → List ℕ → Option Match) where
  -- Once `close` has run on a session that is not closed yet, whatever the handle replied, the
  -- session is closed, `send_input`, `send_control`, `resize` and `read_output` return
  -- `SessionClosed` with no call and no change, and another `close` returns Ok with none.
  pub close-refuses :
      (s : Session) (now later again last : Clock) (reply other : Result Unit)
      → (data_in : List ℕ) (key : ControlKey) (size : PtySize)
      → (params : ReadOutputParams) (surroundings : Surroundings) → is_closed s.state ≡ false
      → (s' : Session) → (close s now later reply).session ≡ s'
      → (s'.state ≡ closed)
        × (send_input s' again data_in other ≡ refused s')
        × (send_control s' again key other ≡ refused s')
        × (resize s' size other ≡ refused s')
        × (read_output compile find s' again params surroundings
            ≡ some (s', err (session_closed s'.id)))
        × (close s' again last other ≡ record { session = s'; calls = []; result = ok tt })
  unfolding send_input send_control resize close read_output end_close
  close-refuses s now later again last reply other data_in key size params surroundings h s' e =
      rw (← e) (rw h (refl, refl, refl, refl, refl, refl))
