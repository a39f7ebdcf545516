-- ===== src/Ring.antt =====
-- src/domain/output.rs: `BufferInner` and the methods of `OutputRingBuffer`. A method that locks
-- the mutex and mutates the buffer returns the new buffer. `written` is a u64, and its sum wraps;
-- positions in `buf` are usize values below twice the capacity, which a `Vec<u8>` keeps under
-- 2 ^ 64, so their sums do not.
mod Copy
pub mod History
mod Circle
pub mod Read
pub mod Pages
use term_bridge.Prelude.{
  ℕ, zero, suc, ◌+◌, ◌-◌, ◌*◌, ◌%◌, ◌^◌, min, max, Bool, ◌||◌, Option, none, some, List, [], ◌∷◌,
  ◌++◌, length, take, drop, replicate, ltb, leb, ◌==◌, if◌then◌else◌,
}

abbrev pub u64 : ℕ
u64 = 2 ^ 64

abbrev pub newline : ℕ
newline = 10

abbrev pub min_buffer_size : ℕ
min_buffer_size = 64 * 1024

abbrev pub max_buffer_size : ℕ
max_buffer_size = 32 * 1024 * 1024

abbrev pub default_buffer_size : ℕ
default_buffer_size = 1024 * 1024

pub record BufferInner : Type 0 where
  pub buf : List ℕ
  pub size : ℕ
  pub head : ℕ
  pub written : ℕ

pub record ReadSinceResult : Type 0 where
  pub output : List ℕ
  pub new_cursor : ℕ
  pub has_more : Bool
  pub is_truncated : Bool

unfoldable pub new_raw : ℕ → BufferInner
new_raw size = record { buf = replicate size 0; size = size; head = 0; written = 0 }

-- usize::clamp
abbrev pub clamp : ℕ → ℕ → ℕ → ℕ
clamp x lo hi = if ltb x lo then lo else if ltb hi x then hi else x

unfoldable pub new : ℕ → BufferInner
unfolding new_raw
new size = new_raw (clamp size min_buffer_size max_buffer_size)

-- buf[start..end]
abbrev pub slice : List ℕ → ℕ → ℕ → List ℕ
slice xs start end = drop start (take end xs)

-- buf[at..at + n].copy_from_slice(xs), with n the length of `xs`
abbrev pub overwrite : List ℕ → ℕ → List ℕ → List ℕ
overwrite buf at xs = take at buf ++ (xs ++ drop (at + length xs) buf)

-- The `while remaining > 0` loop of `write`: `src` holds the bytes that are left. Each round
-- copies at least one byte, so as many rounds as bytes are enough.
pub copy_loop : ℕ → BufferInner → List ℕ → BufferInner
copy_loop zero g src = g
copy_loop (suc fuel) g src =
    let n = min (length src) (g.size - g.head) in
    let g' = record g { buf = overwrite g.buf g.head (take n src); head = (g.head + n) % g.size } in
    let rest = copy_loop fuel g' (drop n src) in if length src == 0 then g else rest

-- The locked part of `write`, after the early return on empty data.
pub write_locked : BufferInner → List ℕ → BufferInner
unfolding copy_loop
write_locked g data_in =
    let len = length data_in in
    if leb g.size len
    then record g { buf = drop (len - g.size) data_in; head = 0; written = (g.written + len) % u64 }
    else (let g' = copy_loop len g data_in in record g' { written = (g'.written + len) % u64 })

unfoldable pub write : BufferInner → List ℕ → BufferInner
unfolding write_locked
write g [] = g
write g (b ∷ bs) = write_locked g (b ∷ bs)

unfoldable pub is_truncated : BufferInner → ℕ → Bool
is_truncated g cursor =
    if leb g.written g.size
    then ltb g.written cursor
    else ltb cursor (g.written - g.size) || ltb g.written cursor

-- The `while read < to_read` loop: `n` bytes are left to read from `phys`.
pub read_loop : ℕ → List ℕ → ℕ → ℕ → ℕ → List ℕ
read_loop zero buf size phys n = []
read_loop (suc fuel) buf size phys n =
    let k = min (size - phys) n in
    let rest = read_loop fuel buf size ((phys + k) % size) (n - k) in
    if n == 0 then [] else slice buf phys (phys + k) ++ rest

-- data.map_or(available, |m| available.min(m))
abbrev at_most : Option ℕ → ℕ → ℕ
at_most none available = available
at_most (some m) available = min available m

unfoldable pub read_since_inner : BufferInner → ℕ → Option ℕ → List ℕ × ℕ
unfolding read_loop
read_since_inner g cursor max_bytes =
    let earliest = g.written - g.size in
    let start = max cursor earliest in
    let to_read = at_most max_bytes (g.written - start) in
    let start_phys =
      if leb g.written g.size then start else (g.head + (start - earliest)) % g.size in
    if leb g.written cursor
    then ([], g.written)
    else if to_read == 0
    then ([], start)
    else (read_loop to_read g.buf g.size start_phys to_read, start + to_read)

unfoldable pub read_since : BufferInner → ℕ → List ℕ
unfolding read_since_inner
read_since g cursor = (read_since_inner g cursor none).0

unfoldable pub read_since_max : BufferInner → ℕ → ℕ → ReadSinceResult
unfolding read_since_inner is_truncated
read_since_max g cursor max_bytes =
    let (output, new_cursor) = read_since_inner g cursor (some max_bytes) in
    record {
      output = output;
      new_cursor = new_cursor;
      has_more = ltb 0 (g.written - new_cursor);
      is_truncated = is_truncated g cursor;
    }
