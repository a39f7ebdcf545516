-- ===== src/Engine/State.antt =====
-- src/domain/output.rs: the state of `OutputEngine`, what a request and its result are made of, and
-- the constants.
use term_bridge.Prelude.{ℕ, Bool, false, Option, none, some, List, [], ◌∷◌, if◌then◌else◌}
use term_bridge.Ring.{BufferInner, new, write}
use term_bridge.Ansi.{strip_control_sequences}

abbrev pub settle_threshold_ms : ℕ
settle_threshold_ms = 300

abbrev pub max_tail_lines : ℕ
max_tail_lines = 100

abbrev pub max_context_lines : ℕ
max_context_lines = 50

abbrev pub default_read_max_bytes : ℕ
default_read_max_bytes = 65536

pub record StripCarry : Type 0 where
  pub armed : Bool
  pub next_cursor : ℕ
  pub pending : List ℕ

pub record OutputEngine : Type 0 where
  pub buffer : BufferInner
  pub mark_cursor : ℕ
  pub strip_carry : StripCarry

pub data ReadMode : Type 0 where
  since_cursor_mode tail_mode wait_for_mode settle_mode : ReadMode

-- `timeout_secs` only sets when the deadline event comes.
pub record ReadOutputParams : Type 0 where
  pub wait_for : Option (List ℕ)
  pub tail_lines : Option ℕ
  pub since_cursor : Option ℕ
  pub max_bytes : Option ℕ
  pub context_lines : Option ℕ
  pub strip_ansi : Bool

pub record ReadOutputResult : Type 0 where
  pub output : List ℕ
  pub cursor : ℕ
  pub has_more : Bool
  pub is_truncated : Bool
  pub matched : Bool
  pub timed_out : Bool
  pub mode : ReadMode

unfoldable pub new_engine : ℕ → OutputEngine
unfolding new
new_engine buffer_size = record {
  buffer = new buffer_size;
  mark_cursor = 0;
  strip_carry = record { armed = false; next_cursor = 0; pending = [] };
}

unfoldable pub mark_to_latest : OutputEngine → OutputEngine
mark_to_latest e = record e { mark_cursor = e.buffer.written }

-- The writes of the PTY task, in their order.
unfoldable pub write_all : BufferInner → List (List ℕ) → BufferInner
write_all g [] = g
write_all g (d ∷ ds) = write_all (write g d) ds

abbrev pub unwrap_or : Option ℕ → ℕ → ℕ
unwrap_or none d = d
unwrap_or (some n) d = n

abbrev pub strip_stateless : Bool → List ℕ → List ℕ
strip_stateless strip bytes = if strip then strip_control_sequences bytes else bytes
