-- ===== src/AgentBuffer.antt =====
-- agentd/src/buffer.rs: the daemon's `RingBuffer`. Its `BufferInner` has the fields of the one in
-- src/domain/output.rs, and its two copying loops are those of that file, so that both come from
-- Ring.antt. A method that locks the mutex and mutates the buffer returns the new buffer.
pub mod Serving
use term_bridge.Prelude.{
  ℕ, ◌+◌, ◌-◌, ◌*◌, ◌%◌, max, Bool, false, List, [], ◌∷◌, length, drop, replicate, ltb, leb, ◌==◌,
  if◌then◌else◌,
}
use term_bridge.Ring.{BufferInner, copy_loop, read_loop, u64}

abbrev pub default_size : ℕ
default_size = 10 * 1024 * 1024

abbrev pub min_size : ℕ
min_size = 64 * 1024

pub record ReadSinceResult : Type 0 where
  pub cursor_start : ℕ
  pub cursor_end : ℕ
  pub is_truncated : Bool
  pub data_read : List ℕ

-- `RingBuffer::new`; a capacity of 0 stands for the default.
abbrev pub capacity : ℕ → ℕ
capacity size = if size == 0 then default_size else max size min_size

unfoldable pub new : ℕ → BufferInner
new size = record { buf = replicate (capacity size) 0; size = capacity size; head = 0; written = 0 }

-- `write` behind its early return on empty data.
abbrev pub write_filled : BufferInner → List ℕ → BufferInner
write_filled g data_in =
    let len = length data_in in
    if leb g.size len
    then record g { buf = drop (len - g.size) data_in; head = 0; written = (g.written + len) % u64 }
    else (let g' = copy_loop len g data_in in record g' { written = (g'.written + len) % u64 })

unfoldable pub write : BufferInner → List ℕ → BufferInner
write g [] = g
write g (b ∷ bs) = write_filled g (b ∷ bs)

abbrev pub read_range : BufferInner → ℕ → ℕ → List ℕ
read_range g start n =
    let earliest = g.written - g.size in
    let start_phys =
      if leb g.written g.size then start else (g.head + (start - earliest)) % g.size in
    if n == 0 then [] else read_loop n g.buf g.size start_phys n

unfoldable pub read_since : BufferInner → ℕ → ReadSinceResult
read_since g since =
    let earliest = g.written - g.size in
    let start = max since earliest in
    let available = g.written - start in
    if leb g.written since
    then record {
      cursor_start = since;
      cursor_end = g.written;
      is_truncated = false;
      data_read = [];
    }
    else record {
      cursor_start = start;
      cursor_end = g.written;
      is_truncated = ltb since earliest;
      data_read = read_range g start available;
    }

-- `RingBuffer::cursor_start`
unfoldable pub oldest_cursor : BufferInner → ℕ
oldest_cursor g = g.written - g.size
