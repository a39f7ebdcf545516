-- ===== src/Engine/Settling.antt =====
-- The settle mode: what a call returns, and where it leaves the mark.
use term_bridge.Prelude.{
  ℕ, ◌+◌, ◌-◌, ◌*◌, ◌≤◌, ◌≡◌, inl, inr, refl, sym, ap, ◌∙◌, subst, some_inj, Bool, some, List, [],
  ◌∷◌, length, drop, arith, Bool-cases, length-drop, drop_at, ◌&&◌, ◌||◌, leb, if◌then◌else◌,
}
use term_bridge.Ring.{BufferInner, read_since}
use term_bridge.Ring.History.{Holds}
use term_bridge.Ring.Read.{earliest, begins}
use term_bridge.Ring.Pages.{read_since-Holds}
use term_bridge.Engine.{
  OutputEngine, ReadOutputResult, PollEvent, poll, expired, write_all, settle_loop,
  read_with_settle, is_empty, settle_threshold_ms,
}
use term_bridge.Engine.Lines.{eq_bytes, has_prompt_suffix}

-- The output is all that is unread at the end, and the mark goes on by its length.
pub record SettleEnds (e : OutputEngine) (mark : ℕ) (p : OutputEngine × ReadOutputResult)
    : Type 0 where
  pub output : p.1.output ≡ read_since p.0.buffer mark
  pub mark_moved : p.0.mark_cursor ≡ mark + length p.1.output
  pub cursor : p.1.cursor ≡ p.0.mark_cursor
  pub carry : p.0.strip_carry ≡ e.strip_carry

settle_loop-ends :
    (events : List PollEvent) (e : OutputEngine) (mark : ℕ) (last_output : List ℕ) (last_change : ℕ)
    (p : OutputEngine × ReadOutputResult)
    → settle_loop events e mark last_output last_change ≡ some p
    → SettleEnds e mark p
unfolding settle_loop
settle_loop-ends [] e mark last_output last_change p h = cc
settle_loop-ends (expired ds ∷ events) e mark last_output last_change p h =
    subst (SettleEnds e mark) (some_inj h)
      (record { output = refl; mark_moved = refl; cursor = refl; carry = refl })
settle_loop-ends (poll now ds ∷ events) e mark last_output last_change p h =
    elim (Bool-cases (is_empty current)) [
      | inl empty ↦ ends_same (
          settle_loop-ends events (record e { buffer = g }) mark last_output last_change p
            (rw empty at h))
      | inr some_out ↦ elim (Bool-cases (settled || has_prompt_suffix current)) [
        | inl done ↦
            subst (SettleEnds e mark) (some_inj (rw (some_out, done) at h))
              (record { output = refl; mark_moved = refl; cursor = refl; carry = refl })
        | inr not_done ↦ ends_same (
            settle_loop-ends events (record e { buffer = g }) mark current
              (if same then last_change else now) p (rw (some_out, not_done) at h))
      ]
    ]
  where
    g : BufferInner
    g = write_all e.buffer ds

    current : List ℕ
    current = read_since g mark

    same : Bool
    same = eq_bytes current last_output

    settled : Bool
    settled = same && leb settle_threshold_ms (now - last_change)

    ends_same : SettleEnds (record e { buffer = g }) mark p → SettleEnds e mark p
    ends_same s = record {
      output = s.output;
      mark_moved = s.mark_moved;
      cursor = s.cursor;
      carry = s.carry;
    }

pub read_with_settle-ends :
    (e : OutputEngine) (now : ℕ) (events : List PollEvent) (p : OutputEngine × ReadOutputResult)
    → read_with_settle e now events ≡ some p
    → SettleEnds e e.mark_cursor p
unfolding read_with_settle
read_with_settle-ends e now events p h =
    settle_loop-ends events e e.mark_cursor (read_since e.buffer e.mark_cursor) now p h

-- A settle read that returns with all its unread bytes still kept returns all of them, and
-- leaves the mark at the newest byte.
pub settle-drains :
    (e : OutputEngine) (now : ℕ) (events : List PollEvent) (p : OutputEngine × ReadOutputResult)
    (hist : List ℕ)
    → read_with_settle e now events ≡ some p
    → Holds p.0.buffer hist
    → earliest p.0.buffer.size hist ≤ e.mark_cursor
    → e.mark_cursor ≤ length hist
    → (p.1.output ≡ drop e.mark_cursor hist) × (p.0.mark_cursor ≡ length hist)
settle-drains e now events p hist h holds kept le =
    (out, s.mark_moved ∙ rw out (omega (arith, length-drop e.mark_cursor hist)))
  where
    s : SettleEnds e e.mark_cursor p
    s = read_with_settle-ends e now events p h

    out : p.1.output ≡ drop e.mark_cursor hist
    out =
        s.output
        ∙ (read_since-Holds p.0.buffer hist holds e.mark_cursor
            ∙ drop_at (begins p.0.buffer.size hist e.mark_cursor) e.mark_cursor hist (omega arith))

-- Where two whole buffers came after the mark, a settle read moves the mark by one buffer only,
-- so that the next read returns the same bytes once more.
pub settle-repeats :
    (e : OutputEngine) (now : ℕ) (events : List PollEvent) (p : OutputEngine × ReadOutputResult)
    (hist : List ℕ)
    → read_with_settle e now events ≡ some p
    → Holds p.0.buffer hist
    → e.mark_cursor + 2 * p.0.buffer.size ≤ length hist
    → (p.0.mark_cursor ≡ e.mark_cursor + p.0.buffer.size)
      × (read_since p.0.buffer p.0.mark_cursor ≡ p.1.output)
      × (length p.1.output ≡ p.0.buffer.size)
settle-repeats e now events p hist h holds far = (moved, again, full)
  where
    s : SettleEnds e e.mark_cursor p
    s = read_with_settle-ends e now events p h

    out : p.1.output ≡ drop (earliest p.0.buffer.size hist) hist
    out =
        s.output
        ∙ (read_since-Holds p.0.buffer hist holds e.mark_cursor
            ∙ drop_at (begins p.0.buffer.size hist e.mark_cursor) (earliest p.0.buffer.size hist)
                hist (omega arith))

    full : length p.1.output ≡ p.0.buffer.size
    full = rw out (omega (arith, length-drop (earliest p.0.buffer.size hist) hist))

    moved : p.0.mark_cursor ≡ e.mark_cursor + p.0.buffer.size
    moved = s.mark_moved ∙ ap (λ n. e.mark_cursor + n) full

    again : read_since p.0.buffer p.0.mark_cursor ≡ p.1.output
    again =
        read_since-Holds p.0.buffer hist holds p.0.mark_cursor
        ∙ (drop_at (begins p.0.buffer.size hist p.0.mark_cursor) (earliest p.0.buffer.size hist)
              hist (omega (arith, moved))
            ∙ sym out)
