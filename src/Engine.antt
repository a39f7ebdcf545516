-- ===== src/Engine.antt =====
-- src/domain/output.rs: the four ways to read of `OutputEngine`.
-- A call of `read_output` runs against the writes that arrive meanwhile: they are given as the
-- list of the events that the call sees, and `none` says that it still waits after them. The
-- regex crate is a parameter.
pub mod State
pub mod Lines
pub mod Writes
pub mod Waiting
pub mod Settling
pub mod Steady
pub mod Peeking
pub mod Paging
use term_bridge.Prelude.{
  ℕ, ◌+◌, ◌-◌, min, Bool, true, false, not, ◌&&◌, ◌||◌, Option, none, some, List, [], ◌∷◌, ◌++◌,
  length, take, drop, ltb, leb, ◌==◌, if◌then◌else◌,
}
use term_bridge.Ring.{
  BufferInner, ReadSinceResult, new, write, read_since, read_since_max, is_truncated,
}
use term_bridge.Ansi.{strip_control_sequences, strip_page}
unfoldable pub use State.*
use Lines.{Match, tail, match_pattern, extract_context, has_prompt_suffix, eq_bytes}

-- The page `bytes` lies between the two cursors.
unfoldable pub strip_since_page : OutputEngine → ℕ → ℕ → List ℕ → List ℕ × OutputEngine
strip_since_page e read_start read_end bytes =
    let carry = e.strip_carry in
    let contiguous =
      not (is_truncated e.buffer read_start)
      && (not carry.armed || carry.next_cursor == read_start) in
    let res = strip_page bytes carry.pending in
    if not contiguous then (strip_control_sequences bytes, e) else (
      res.text,
      record e {
        strip_carry = record { armed = true; next_cursor = read_end; pending = res.trailing };
      },
    )

-- Mode 1.
pub read_since_mode : OutputEngine → ReadOutputParams → ℕ → OutputEngine × ReadOutputResult
unfolding strip_since_page
read_since_mode e params cursor =
    let r = read_since_max e.buffer cursor (unwrap_or params.max_bytes default_read_max_bytes) in
    let (output, e') =
      if params.strip_ansi
      then strip_since_page e cursor r.new_cursor r.output
      else (r.output, e) in
    (
      e',
      record {
        output = output;
        cursor = r.new_cursor;
        has_more = r.has_more;
        is_truncated = r.is_truncated;
        matched = false;
        timed_out = false;
        mode = since_cursor_mode;
      },
    )

-- Mode 2.
pub read_tail_mode : OutputEngine → ReadOutputParams → ℕ → OutputEngine × ReadOutputResult
read_tail_mode e params n = (
  e,
  record {
    output = strip_stateless params.strip_ansi (tail e.buffer (min n max_tail_lines));
    cursor = e.mark_cursor;
    has_more = false;
    is_truncated = false;
    matched = false;
    timed_out = false;
    mode = tail_mode;
  },
)

-- The writes before a scan of `wait_for`, and those between the scan and the reading of `written`.
pub record Arrivals : Type 0 where
  pub before : List (List ℕ)
  pub between : List (List ℕ)

-- What wakes the waiting loops; a poll of the settle loop has its time in milliseconds.
pub data WaitEvent : Type 0 where
  changed : Arrivals → WaitEvent
  deadline : List (List ℕ) → WaitEvent

pub data PollEvent : Type 0 where
  poll : ℕ → List (List ℕ) → PollEvent
  expired : List (List ℕ) → PollEvent

abbrev pub is_empty : List ℕ → Bool
is_empty [] = true
is_empty (b ∷ bs) = false

abbrev with_buffer : OutputEngine → BufferInner → OutputEngine
with_buffer e g = record e { buffer = g }

-- The match branch, once in the first scan and once in the loop.
abbrev pub hit :
    OutputEngine → BufferInner → ℕ → List ℕ → Match → ℕ → OutputEngine × ReadOutputResult
hit e g mark unread m context_lines = (
  record e { buffer = g; mark_cursor = g.written },
  record {
    output = extract_context unread m context_lines;
    cursor = g.written;
    has_more = false;
    is_truncated = is_truncated g mark;
    matched = true;
    timed_out = false;
    mode = wait_for_mode;
  },
)

-- The deadline branch.
abbrev pub timeout : OutputEngine → BufferInner → ℕ → OutputEngine × ReadOutputResult
timeout e g mark =
    let unread = read_since g mark in
    (
      record e { buffer = g },
      record {
        output = unread;
        cursor = mark;
        has_more = not (is_empty unread);
        is_truncated = is_truncated g mark;
        matched = false;
        timed_out = true;
        mode = wait_for_mode;
      },
    )

module _ {R : Type 0} (compile : List ℕ → Option R) (find : R → List ℕ → Option Match) where
  -- A scan of the unread bytes that finds a match ends the call; `rest` goes on with the loop.
  abbrev pub scan_or :
      OutputEngine
      → ℕ
      → List ℕ
      → ℕ
      → Arrivals
      → (BufferInner → Option (OutputEngine × ReadOutputResult))
      → Option (OutputEngine × ReadOutputResult)
  scan_or e mark pattern context_lines arrivals rest =
      let g = write_all e.buffer arrivals.before in
      let g' = write_all g arrivals.between in
      let unread = read_since g mark in
      elim (match_pattern find unread (compile pattern) pattern) [
        | some m ↦ some (hit e g' mark unread m context_lines)
        | none ↦ rest g'
      ]

  -- The loop of `read_with_wait_for`.
  pub wait_loop :
      List WaitEvent → OutputEngine → ℕ → List ℕ → ℕ → Option (OutputEngine × ReadOutputResult)
  wait_loop [] e mark pattern context_lines = none
  wait_loop (deadline ds ∷ events) e mark pattern context_lines =
      some (timeout e (write_all e.buffer ds) mark)
  wait_loop (changed arrivals ∷ events) e mark pattern context_lines =
      scan_or e mark pattern context_lines arrivals
        (λ g. wait_loop events (with_buffer e g) mark pattern context_lines)

  unfoldable pub read_with_wait_for :
      OutputEngine
      → List ℕ
      → Option ℕ
      → Arrivals
      → List WaitEvent
      → Option (OutputEngine × ReadOutputResult)
  unfolding wait_loop
  read_with_wait_for e pattern context_lines first events =
      let lines = min (unwrap_or context_lines 0) max_context_lines in
      scan_or e e.mark_cursor pattern lines first
        (λ g. wait_loop events (with_buffer e g) e.mark_cursor pattern lines)

-- Both ways in which the settle loop returns: the mark goes on by what is returned.
abbrev pub settled_with :
    OutputEngine → BufferInner → ℕ → List ℕ → Bool → OutputEngine × ReadOutputResult
settled_with e g mark out late = (
  record e { buffer = g; mark_cursor = mark + length out },
  record {
    output = out;
    cursor = mark + length out;
    has_more = false;
    is_truncated = is_truncated g mark;
    matched = false;
    timed_out = late;
    mode = settle_mode;
  },
)

-- The loop of `read_with_settle`: `last_output` was first seen at the time `last_change`.
pub settle_loop :
    List PollEvent → OutputEngine → ℕ → List ℕ → ℕ → Option (OutputEngine × ReadOutputResult)
settle_loop [] e mark last_output last_change = none
settle_loop (expired ds ∷ events) e mark last_output last_change =
    let g = write_all e.buffer ds in some (settled_with e g mark (read_since g mark) true)
settle_loop (poll now ds ∷ events) e mark last_output last_change =
    let g = write_all e.buffer ds in
    let current = read_since g mark in
    let same = eq_bytes current last_output in
    let settled = same && leb settle_threshold_ms (now - last_change) in
    let skip = settle_loop events (with_buffer e g) mark last_output last_change in
    let more =
      settle_loop events (with_buffer e g) mark current (if same then last_change else now) in
    if is_empty current
    then skip
    else if settled || has_prompt_suffix current
    then some (settled_with e g mark current false)
    else more

unfoldable pub read_with_settle :
    OutputEngine → ℕ → List PollEvent → Option (OutputEngine × ReadOutputResult)
unfolding settle_loop
read_with_settle e now events =
    settle_loop events e e.mark_cursor (read_since e.buffer e.mark_cursor) now

-- What a call meets: its time, the first scan's arrivals, and the events of either loop.
pub record Surroundings : Type 0 where
  pub now : ℕ
  pub first : Arrivals
  pub waits : List WaitEvent
  pub polls : List PollEvent

abbrev pub strip_output :
    Bool → Option (OutputEngine × ReadOutputResult) → Option (OutputEngine × ReadOutputResult)
strip_output strip none = none
strip_output strip (some (e, r)) = some (e, record r { output = strip_stateless strip r.output })

module _ {R : Type 0} (compile : List ℕ → Option R) (find : R → List ℕ → Option Match) where
  unfoldable pub read_output :
      OutputEngine → ReadOutputParams → Surroundings → Option (OutputEngine × ReadOutputResult)
  unfolding read_since_mode read_tail_mode
  read_output e params s = elim params.since_cursor [
    | some cursor ↦ some (read_since_mode e params cursor)
    | none ↦ elim params.tail_lines [
      | some n ↦ some (read_tail_mode e params n)
      | none ↦ elim params.wait_for [
        | some pattern ↦
            strip_output params.strip_ansi
              (read_with_wait_for compile find e pattern params.context_lines s.first s.waits)
        | none ↦ strip_output params.strip_ansi (read_with_settle e s.now s.polls)
      ]
    ]
  ]
