-- ===== src/Timeline.antt =====
-- src/domain/timeline.rs: what a session did, without the bytes that it put out. A record keeps
-- the newest events. The time of a record is an argument; `command_id` is a u64, and its counter
-- wraps.
pub mod Window
use term_bridge.Prelude.{
  ℕ, suc, ◌+◌, ◌-◌, ◌%◌, Option, none, some, List, [], ◌∷◌, ◌++◌, length, take, drop, ltb, leb,
  ◌==◌, if◌then◌else◌,
}
use term_bridge.Text.{Text, codes}
use term_bridge.Utf8.{from_utf8_lossy}
use term_bridge.Ring.{u64}

pub data TimelineEvent : Type 0 where
  command_event : (timestamp command_id : ℕ) (input : Text) (cursor_before : ℕ) → TimelineEvent
  output_event : (timestamp cursor_start cursor_end bytes : ℕ) → TimelineEvent
  control_event : (timestamp : ℕ) (control : Text) → TimelineEvent
  state_change_event : (timestamp : ℕ) (from to : Text) → TimelineEvent

pub record Timeline : Type 0 where
  pub events : List TimelineEvent
  pub next_command_id : ℕ
  pub max_events : ℕ

abbrev pub max_command_input : ℕ
max_command_input = 4096

unfoldable pub with_capacity : ℕ → Timeline
with_capacity max_events = record { events = []; next_command_id = 1; max_events = max_events }

unfoldable pub new_timeline : Timeline
unfolding with_capacity
new_timeline = with_capacity 1000

unfoldable pub truncate_utf8 : List ℕ → ℕ → Text
truncate_utf8 bytes max_len =
    if leb (length bytes) max_len
    then from_utf8_lossy bytes
    else from_utf8_lossy (take max_len bytes) ++ codes "..."

-- The front goes first, if there is one.
unfoldable pub push : Timeline → TimelineEvent → Timeline
push t event = record t {
  events =
      (if leb t.max_events (length t.events) then drop 1 t.events else t.events) ++ (event ∷ []);
}

-- The new timeline and the id of the command.
unfoldable pub record_command : Timeline → ℕ → List ℕ → ℕ → Timeline × ℕ
unfolding push truncate_utf8
record_command t now input cursor_before =
    let command_id = t.next_command_id in
    let t' = record t { next_command_id = (command_id + 1) % u64 } in
    (
      push t' (command_event now command_id (truncate_utf8 input max_command_input) cursor_before),
      command_id,
    )

unfoldable pub record_output : Timeline → ℕ → ℕ → ℕ → ℕ → Timeline
unfolding push
record_output t now cursor_start cursor_end bytes =
    if bytes == 0 then t else push t (output_event now cursor_start cursor_end bytes)

unfoldable pub record_control : Timeline → ℕ → Text → Timeline
unfolding push
record_control t now control = push t (control_event now control)

unfoldable pub record_state_change : Timeline → ℕ → Text → Text → Timeline
unfolding push
record_state_change t now from to = push t (state_change_event now from to)

abbrev skipped : Option ℕ → ℕ → ℕ
skipped none len = 0
skipped (some n) len = if ltb n len then len - n else 0

unfoldable pub events : Timeline → Option ℕ → List TimelineEvent
events t limit = drop (skipped limit (length t.events)) t.events
