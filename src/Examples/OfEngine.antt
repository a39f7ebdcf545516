-- ===== src/Examples/OfEngine.antt =====
-- Calls of `read_output` on rings of four bytes and of the smallest size.
use term_bridge.Prelude.{
  ℕ, ◌+◌, ◌-◌, ◌≤◌, ◌≡◌, ◌⊎◌, refl, true, false, Option, none, some, List, [], ◌∷◌, ◌++◌, length,
  drop, arith, inl,
}
use term_bridge.Ring.{BufferInner, new_raw, write, read_since, read_since_max}
use term_bridge.Ring.History.{Holds, new_raw-Holds, write-Holds}
use term_bridge.Ansi.{esc, strip_control_sequences, incomplete_trailing_start, run_length}
use term_bridge.Ansi.Stream.{Smooth}
use term_bridge.Engine.{
  OutputEngine, ReadOutputResult, Surroundings, Arrivals, changed, deadline, poll, PollEvent,
  expired, write_all, read_with_wait_for, read_with_settle, settled_with,
}
use term_bridge.Engine.Lines.{Match, find_subslice, has_prompt_suffix}
use term_bridge.Engine.Lines.Search.{around, search_first}
use term_bridge.Engine.Waiting.{WaitEnds, read_with_wait_for-returns}
use term_bridge.Engine.Steady.{Verdict, is_due, Reading, read_with_settle-Verdict}
use term_bridge.Engine.Settling.{SettleEnds, settle-drains, settle-repeats}
use term_bridge.Engine.Paging.{read_pages, read_pages-stream}

-- A regex crate that knows the patterns without special characters: what it finds is the bytes
-- of the pattern.
abbrev compile : List ℕ → Option (List ℕ)
compile pattern = some pattern

abbrev find : List ℕ → List ℕ → Option Match
find pattern bytes = elim (find_subslice bytes pattern) [
  | none ↦ none
  | some at ↦ some (record { start = at; end = at + length pattern })
]

abbrev ok_bytes : List ℕ
ok_bytes = b'o' ∷ (b'k' ∷ [])

abbrev long_bytes : List ℕ
long_bytes = 1 ∷ (2 ∷ (3 ∷ (4 ∷ (5 ∷ (6 ∷ (7 ∷ (8 ∷ [])))))))

abbrev engine_of : BufferInner → OutputEngine
engine_of g = record {
  buffer = g;
  mark_cursor = 0;
  strip_carry = record { armed = false; next_cursor = 0; pending = [] };
}

abbrev idle : OutputEngine
idle = engine_of (new_raw 4)

idle-Holds : Holds idle.buffer []
idle-Holds = new_raw-Holds 4 (omega arith)

abbrev quiet : Arrivals
quiet = record { before = []; between = [] }

abbrev arrived : Arrivals
arrived = record { before = ok_bytes ∷ []; between = [] }

read_with_wait_for-returns_example :
    (p : OutputEngine × ReadOutputResult) × (read_with_wait_for compile find idle ok_bytes none
        quiet
        ((changed arrived ∷ []) ++ (deadline [] ∷ []))
      ≡ some p)
    × WaitEnds idle idle.mark_cursor p
read_with_wait_for-returns_example =
    read_with_wait_for-returns compile find idle ok_bytes none quiet (changed arrived ∷ []) [] []

-- The engine and the result of a settled read behind these bytes.
abbrev settled_on : List ℕ → OutputEngine × ReadOutputResult
settled_on bytes = let g = write (new_raw 4) bytes in settled_with idle g 0 (read_since g 0) true

settles :
    (bytes : List ℕ) → read_with_settle idle 0 (expired (bytes ∷ []) ∷ []) ≡ some (settled_on bytes)
unfolding read_with_settle write_all
settles bytes = refl

settle-drains_example :
    ((settled_on ok_bytes).1.output ≡ drop 0 ok_bytes)
    × ((settled_on ok_bytes).0.mark_cursor ≡ length ok_bytes)
settle-drains_example =
    settle-drains idle 0 (expired (ok_bytes ∷ []) ∷ []) (settled_on ok_bytes) ok_bytes
      (settles ok_bytes) (write-Holds (new_raw 4) [] ok_bytes idle-Holds (omega arith)) kept
      (omega arith)
  where
    kept : length ok_bytes - (write (new_raw 4) ok_bytes).size ≤ 0
    kept = unfold write new_raw in omega arith

-- Bytes that are still the same 400 ms later.
abbrev typed_engine : OutputEngine
typed_engine = engine_of (write (new_raw 4) ok_bytes)

abbrev steady_polls : List PollEvent
steady_polls = poll 100 (ok_bytes ∷ []) ∷ (poll 500 [] ∷ [])

abbrev steady_on : OutputEngine × ReadOutputResult
steady_on = settled_with typed_engine typed_engine.buffer 0 (read_since typed_engine.buffer 0) false

stands : read_with_settle idle 0 steady_polls ≡ some steady_on
unfolding read_with_settle write_all write read_since new_raw has_prompt_suffix
stands = refl

read_with_settle-Verdict_example :
    SettleEnds idle 0 steady_on
    × Verdict
        (is_due steady_polls)
        (λ t out.
          ((t ≡ 0) × (out ≡ read_since idle.buffer 0)) ⊎ Reading 0 t out idle.buffer steady_polls)
        (λ t out. Reading 0 t out idle.buffer steady_polls)
        (steady_on.1)
read_with_settle-Verdict_example = read_with_settle-Verdict idle 0 steady_polls steady_on stands

long-size : (write (new_raw 4) long_bytes).size ≡ 4
unfolding write new_raw
long-size = refl

settle-repeats_example :
    ((settled_on long_bytes).0.mark_cursor ≡ 0 + (settled_on long_bytes).0.buffer.size)
    × (read_since (settled_on long_bytes).0.buffer (settled_on long_bytes).0.mark_cursor
        ≡ (settled_on long_bytes).1.output)
    × (length (settled_on long_bytes).1.output ≡ (settled_on long_bytes).0.buffer.size)
settle-repeats_example =
    settle-repeats idle 0 (expired (long_bytes ∷ []) ∷ []) (settled_on long_bytes) long_bytes
      (settles long_bytes) (write-Holds (new_raw 4) [] long_bytes idle-Holds (omega arith))
      (omega (arith, long-size))

abbrev nothing : Surroundings
nothing = record { now = 0; first = quiet; waits = []; polls = [] }

-- ESC, "[m" and a letter, read in pages of two bytes.
abbrev coloured : List ℕ
coloured = esc ∷ (b'[' ∷ (b'm' ∷ (97 ∷ [])))

abbrev coloured_engine : OutputEngine
coloured_engine = engine_of (write (new_raw 4) coloured)

coloured-Holds : Holds coloured_engine.buffer coloured
coloured-Holds = write-Holds (new_raw 4) [] coloured idle-Holds (omega arith)

read_pages-stream_example :
    let (text, e', c') = read_pages coloured_engine 0 (2 ∷ []) in
    text ++ strip_control_sequences (e'.strip_carry.pending ++ read_since coloured_engine.buffer c')
    ≡ strip_control_sequences ([] ++ read_since coloured_engine.buffer 0)
read_pages-stream_example =
    read_pages-stream coloured_engine coloured 0 (2 ∷ []) coloured-Holds kept (omega arith)
      (inl refl) (smooth, tt)
  where
    kept : length coloured - coloured_engine.buffer.size ≤ 0
    kept = unfold write new_raw in omega arith

    served : (read_since_max coloured_engine.buffer 0 2).output ≡ esc ∷ (b'[' ∷ [])
    served = unfold read_since_max write new_raw in refl

    start : incomplete_trailing_start (esc ∷ (b'[' ∷ [])) ≡ some 0
    start = unfold incomplete_trailing_start run_length in refl

    smooth : Smooth ([] ++ (read_since_max coloured_engine.buffer 0 2).output)
    smooth = rw served (record { fits = rw start (omega arith); apart = rw start refl })

abbrev lead : List ℕ
lead = 1 ∷ []

search_first_example :
    (pos : ℕ) × (find_subslice (lead ++ (ok_bytes ++ (ok_bytes ++ []))) ok_bytes ≡ some pos)
    × (pos ≤ length lead)
    × (lead ++ (ok_bytes ++ (ok_bytes ++ []))
        ≡ around (lead ++ (ok_bytes ++ (ok_bytes ++ []))) ok_bytes pos)
search_first_example = search_first lead (ok_bytes ++ []) b'o' (b'k' ∷ [])
