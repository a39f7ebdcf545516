-- ===== src/Timeline/Window.antt =====
-- src/domain/timeline.rs: a run of records, against the whole log of what was recorded.
use term_bridge.Prelude.{
  ℕ, ◌+◌, ◌-◌, ◌%◌, ◌≤◌, max, Bool-cases, some, List, [], ◌∷◌, ◌++◌, append_assoc, append-nil,
  length, length-append, length-drop, drop, drop-drop, drop_at, drop_all, drop-append_le, ltb, leb,
  leb→le, leb→gt, ◌==◌, if◌then◌else◌, ◌≡◌, refl, sym, ap, ◌∙◌, inl, inr, arith,
}
use term_bridge.Text.{Text}
use term_bridge.Ring.{u64}
use term_bridge.Timeline.{
  TimelineEvent, command_event, output_event, control_event, state_change_event, Timeline,
  max_command_input, with_capacity, truncate_utf8, push, record_command, record_output,
  record_control, record_state_change, events,
}

-- A call of one of the four `record_` methods, with its time.
pub data Entry : Type 0 where
  command : ℕ → List ℕ → ℕ → Entry
  output : ℕ → ℕ → ℕ → ℕ → Entry
  control : ℕ → Text → Entry
  state_change : ℕ → Text → Text → Entry

abbrev pub record_entry : Timeline → Entry → Timeline
record_entry t (command now input cursor) = (record_command t now input cursor).0
record_entry t (output now start end bytes) = record_output t now start end bytes
record_entry t (control now key) = record_control t now key
record_entry t (state_change now from to) = record_state_change t now from to

unfoldable pub record_all : Timeline → List Entry → Timeline
record_all t [] = t
record_all t (x ∷ xs) = record_all (record_entry t x) xs

-- What an entry adds to a log that forgets nothing, and the id of the next command.
abbrev pub logged : ℕ → Entry → List TimelineEvent × ℕ
logged id (command now input cursor) =
    (command_event now id (truncate_utf8 input max_command_input) cursor ∷ [], (id + 1) % u64)
logged id (output now start end bytes) =
    (if bytes == 0 then [] else output_event now start end bytes ∷ [], id)
logged id (control now key) = (control_event now key ∷ [], id)
logged id (state_change now from to) = (state_change_event now from to ∷ [], id)

unfoldable pub whole_log : ℕ → List Entry → List TimelineEvent
whole_log id [] = []
whole_log id (x ∷ xs) = (logged id x).0 ++ whole_log (logged id x).1 xs

-- The newest `n` of a list.
abbrev pub newest {ℓ} : {A : Type ℓ} → ℕ → List A → List A
newest n xs = drop (length xs - n) xs

newest-newest-append {ℓ} :
    {A : Type ℓ} (n : ℕ) (xs ys : List A) → newest n (newest n xs ++ ys) ≡ newest n (xs ++ ys)
newest-newest-append n xs ys =
    let k = length xs - n in
    sym (
      drop_at (length (xs ++ ys) - n) (k + (length (newest n xs ++ ys) - n)) (xs ++ ys)
        (omega (arith, length-append xs ys, length-append (newest n xs) ys, length-drop k xs))
      ∙ sym (drop-drop (length (newest n xs ++ ys) - n) k (xs ++ ys))
      ∙ ap (drop (length (newest n xs ++ ys) - n)) (drop-append_le k xs ys (omega arith)))

-- The state after some records: the window of the log so far, and the next id.
record Shows (cap : ℕ) (log : List TimelineEvent) (id : ℕ) (t : Timeline) : Type 0 where
  window : t.events ≡ newest (max 1 cap) log
  counter : t.next_command_id ≡ id
  capacity : t.max_events ≡ cap

length-newest {ℓ} : {A : Type ℓ} (n : ℕ) (xs : List A) → length (newest n xs) ≤ n
length-newest n xs = omega (arith, length-drop (length xs - n) xs)

-- One push on a list of at most `max 1 cap` events.
pushed {ℓ} :
    {A : Type ℓ} (cap : ℕ) (es : List A) (e : A)
    → length es ≤ max 1 cap
    → (if leb cap (length es) then drop 1 es else es) ++ (e ∷ [])
      ≡ newest (max 1 cap) (es ++ (e ∷ []))
pushed cap [] e h = elim (Bool-cases (leb cap 0)) [
  | inl full ↦ rw full (sym (drop_at (1 - max 1 cap) 0 (e ∷ []) (omega arith)))
  | inr room ↦ rw room (sym (drop_at (1 - max 1 cap) 0 (e ∷ []) (omega arith)))
]
pushed cap (x ∷ xs) e h = elim (Bool-cases (leb cap (length (x ∷ xs)))) [
  | inl full ↦ rw full (
      sym (
        drop_at (length ((x ∷ xs) ++ (e ∷ [])) - max 1 cap) 1 ((x ∷ xs) ++ (e ∷ []))
          (omega (arith, length-append xs (e ∷ []), leb→le cap (length (x ∷ xs)) full))))
  | inr room ↦ rw room (
      sym (
        drop_at (length ((x ∷ xs) ++ (e ∷ [])) - max 1 cap) 0 ((x ∷ xs) ++ (e ∷ []))
          (omega (arith, length-append xs (e ∷ []), leb→gt cap (length (x ∷ xs)) room))))
]

push-Shows :
    (cap id : ℕ) (log : List TimelineEvent) (t : Timeline) (e : TimelineEvent)
    → Shows cap log id t
    → Shows cap (log ++ (e ∷ [])) id (push t e)
unfolding push
push-Shows cap id log t e s = record {
  window =
      rw (s.capacity, s.window)
        (pushed cap (newest (max 1 cap) log) e (length-newest (max 1 cap) log)
          ∙ newest-newest-append (max 1 cap) log (e ∷ []));
  counter = s.counter;
  capacity = s.capacity;
}

record_entry-Shows :
    (cap id : ℕ) (log : List TimelineEvent) (t : Timeline) (x : Entry)
    → Shows cap log id t
    → Shows cap (log ++ (logged id x).0) (logged id x).1 (record_entry t x)
unfolding record_command record_output record_control record_state_change
record_entry-Shows cap id log t (command now input cursor) s = rw (← s.counter) (
    push-Shows cap ((t.next_command_id + 1) % u64) log
      (record t { next_command_id = (t.next_command_id + 1) % u64 })
      (command_event now t.next_command_id (truncate_utf8 input max_command_input) cursor)
      (record { window = s.window; counter = refl; capacity = s.capacity }))
record_entry-Shows cap id log t (output now start end bytes) s = elim (Bool-cases (bytes == 0)) [
  | inl nothing ↦ rw (nothing, append-nil log) s
  | inr bytes_came ↦ rw bytes_came (push-Shows cap id log t (output_event now start end bytes) s)
]
record_entry-Shows cap id log t (control now key) s =
    push-Shows cap id log t (control_event now key) s
record_entry-Shows cap id log t (state_change now from to) s =
    push-Shows cap id log t (state_change_event now from to) s

record_all-window :
    (cap id : ℕ) (log : List TimelineEvent) (t : Timeline) (xs : List Entry)
    → Shows cap log id t
    → (record_all t xs).events ≡ newest (max 1 cap) (log ++ whole_log id xs)
unfolding record_all whole_log
record_all-window cap id log t [] s = rw (append-nil log) s.window
record_all-window cap id log t (x ∷ xs) s =
    record_all-window cap (logged id x).1 (log ++ (logged id x).0) (record_entry t x) xs
      (record_entry-Shows cap id log t x s)
    ∙ ap (newest (max 1 cap)) (append_assoc log (logged id x).0 (whole_log (logged id x).1 xs))

events-newest : (t : Timeline) (n : ℕ) → events t (some n) ≡ newest n t.events
unfolding events
events-newest t n = elim (Bool-cases (ltb n (length t.events))) [
  | inl more ↦ rw more refl
  | inr all ↦ rw all (drop_at 0 (length t.events - n) t.events (ground arith))
]

-- For a capacity and a run of records on a new timeline, `events` with a limit returns the
-- newest of the newest events of the whole log, as many as the limit and the capacity, or one,
-- allow.
pub record_all-events :
    (cap n : ℕ) (xs : List Entry)
    → events (record_all (with_capacity cap) xs) (some n)
      ≡ newest n (newest (max 1 cap) (whole_log 1 xs))
unfolding with_capacity
record_all-events cap n xs =
    events-newest (record_all (with_capacity cap) xs) n
    ∙ ap (newest n) (
        record_all-window cap 1 [] (with_capacity cap) xs (record {
          window = sym (drop_all (0 - max 1 cap) [] (omega arith));
          counter = refl;
          capacity = refl;
        }))
