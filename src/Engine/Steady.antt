-- ===== src/Engine/Steady.antt =====
-- The settle mode: when a call returns before its deadline.
use term_bridge.Prelude.{
  ℕ, ◌+◌, ◌-◌, ◌≤◌, ◌≡◌, ◌⊎◌, inl, inr, refl, sym, subst, some_inj, Bool, true, false, some, List,
  [], ◌∷◌, arith, Bool-cases, ◌&&◌, ◌||◌, ◌==◌, ==_iff, leb, if◌then◌else◌,
}
use term_bridge.Ring.{BufferInner, read_since}
use term_bridge.Engine.{
  OutputEngine, ReadOutputResult, PollEvent, poll, expired, write_all, settle_loop, settled_with,
  read_with_settle, is_empty, settle_threshold_ms,
}
use term_bridge.Engine.Settling.{SettleEnds, read_with_settle-ends}
use term_bridge.Engine.Lines.{eq_bytes, has_prompt_suffix}

-- The unread bytes at the time of one of the polls.
pub data Reading (mark t : ℕ) (out : List ℕ) : BufferInner → List PollEvent → Type 0 where
  at_once :
      {g : BufferInner} {ds : List (List ℕ)} {events : List PollEvent}
      → out ≡ read_since (write_all g ds) mark
      → Reading mark t out g (poll t ds ∷ events)
  later :
      {g : BufferInner} {t' : ℕ} {ds : List (List ℕ)} {events : List PollEvent}
      → Reading mark t out (write_all g ds) events
      → Reading mark t out g (poll t' ds ∷ events)

-- Whether the deadline comes.
abbrev pub is_due : List PollEvent → Bool
is_due [] = false
is_due (expired ds ∷ events) = true
is_due (poll t ds ∷ events) = is_due events

-- Why a call returned: for its deadline, or since a poll found unread bytes that end in a prompt, or
-- that were the same at a time at least 300 ms before.
pub data Verdict (due : Bool) (Seen Polled : ℕ → List ℕ → Type 0) (r : ReadOutputResult)
    : Type 0 where
  late : r.timed_out ≡ true → due ≡ true → Verdict due Seen Polled r
  at_prompt :
      (t : ℕ)
      → r.timed_out ≡ false
      → is_empty r.output ≡ false
      → has_prompt_suffix r.output ≡ true
      → Polled t r.output
      → Verdict due Seen Polled r
  steady :
      (since t : ℕ)
      → r.timed_out ≡ false
      → is_empty r.output ≡ false
      → Seen since r.output
      → Polled t r.output
      → since + 300 ≤ t
      → Verdict due Seen Polled r

eq_bytes-eq : (s t : List ℕ) → eq_bytes s t ≡ true → s ≡ t
eq_bytes-eq [] [] h = refl
eq_bytes-eq [] (b ∷ t) h = cc
eq_bytes-eq (a ∷ s) [] h = cc
eq_bytes-eq (a ∷ s) (b ∷ t) h = elim (Bool-cases (a == b)) [
  | inl same ↦ cc ((==_iff a b).0 same, eq_bytes-eq s t (rw same at h))
  | inr differ ↦ cc (rw differ at h)
]

settle_loop-Verdict :
    (Seen Polled : ℕ → List ℕ → Type 0) (events : List PollEvent) (e : OutputEngine) (mark : ℕ)
    (last_output : List ℕ) (last_change : ℕ) (p : OutputEngine × ReadOutputResult)
    → ((t : ℕ) (out : List ℕ) → Reading mark t out e.buffer events → Polled t out)
    → ((t : ℕ) (out : List ℕ) → Polled t out → Seen t out)
    → Seen last_change last_output
    → settle_loop events e mark last_output last_change ≡ some p
    → Verdict (is_due events) Seen Polled p.1
unfolding settle_loop
settle_loop-Verdict Seen Polled [] e mark last_output last_change p reads incl last h = cc
settle_loop-Verdict Seen Polled (expired ds ∷ events) e mark last_output last_change p reads incl
      last h =
    subst (λ q. Verdict true Seen Polled q.1) (some_inj h) (late refl refl)
settle_loop-Verdict Seen Polled (poll now ds ∷ events) e mark last_output last_change p reads incl
      last h =
    elim (Bool-cases (is_empty current)) [
      | inl empty ↦
          settle_loop-Verdict Seen Polled events (record e { buffer = g }) mark last_output
            last_change p (λ t out r. reads t out (later r)) incl last (rw empty at h)
      | inr some_out ↦ elim (Bool-cases (settled || has_prompt_suffix current)) [
        | inl done ↦
            subst (λ q. Verdict (is_due events) Seen Polled q.1)
              (some_inj (rw (some_out, done) at h)) (by_settled some_out done)
        | inr not_done ↦
            settle_loop-Verdict Seen Polled events (record e { buffer = g }) mark current
              (if same then last_change else now) p (λ t out r. reads t out (later r)) incl
              last_seen (rw (some_out, not_done) at h)
      ]
    ]
  where
    g : BufferInner
    g = write_all e.buffer ds

    current : List ℕ
    current = read_since g mark

    same : Bool
    same = eq_bytes current last_output

    settled : Bool
    settled = same && leb settle_threshold_ms (now - last_change)

    now_seen : Polled now current
    now_seen = reads now current (at_once refl)

    unchanged : same ≡ true → Seen last_change current
    unchanged s = subst (Seen last_change) (sym (eq_bytes-eq current last_output s)) last

    last_seen : Seen (if same then last_change else now) current
    last_seen = elim (Bool-cases same) [
      | inl s ↦ rw s (unchanged s)
      | inr d ↦ rw d (incl now current now_seen)
    ]

    by_settled :
        is_empty current ≡ false
        → (settled || has_prompt_suffix current) ≡ true
        → Verdict (is_due events) Seen Polled (settled_with e g mark current false).1
    by_settled some_out done = elim (Bool-cases settled) [
      | inl s ↦
          steady last_change now refl some_out (unchanged (ground arith)) now_seen (ground arith)
      | inr n ↦ at_prompt now refl some_out (rw n at done) now_seen
    ]

-- A settle read that returns gives all that is unread and moves the mark by its length, and says
-- `timed_out` only if its deadline came; else it returns bytes, not none, that end in a prompt
-- at a poll, or that were unread at a poll and the same at the start or a poll at least 300 ms
-- earlier.
pub read_with_settle-Verdict :
    (e : OutputEngine) (now : ℕ) (events : List PollEvent) (p : OutputEngine × ReadOutputResult)
    → read_with_settle e now events ≡ some p
    → SettleEnds e e.mark_cursor p
      × Verdict
          (is_due events)
          (λ t out.
            ((t ≡ now) × (out ≡ read_since e.buffer e.mark_cursor))
            ⊎ Reading e.mark_cursor t out e.buffer events)
          (λ t out. Reading e.mark_cursor t out e.buffer events)
          p.1
unfolding read_with_settle
read_with_settle-Verdict e now events p h = (
  read_with_settle-ends e now events p h,
  settle_loop-Verdict _ _ events e e.mark_cursor (read_since e.buffer e.mark_cursor) now p
      (λ t out r. r) (λ t out r. inr r) (inl (refl, refl)) h,
)
