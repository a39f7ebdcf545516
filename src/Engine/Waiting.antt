-- ===== src/Engine/Waiting.antt =====
-- `wait_for`: how the call ends, and that it ends.
use term_bridge.Prelude.{
  ℕ, ◌≡◌, refl, subst, some_inj, min, true, false, Option, none, some, List, [], ◌∷◌, ◌++◌,
}
use term_bridge.Ring.{BufferInner, read_since}
use term_bridge.Engine.{
  OutputEngine, ReadOutputResult, Arrivals, WaitEvent, changed, deadline, write_all, hit, timeout,
  scan_or, wait_loop, read_with_wait_for, unwrap_or, max_context_lines,
}
use term_bridge.Engine.Lines.{Match, match_pattern}

-- How a call that began at `mark` on `e` may end.
pub data WaitEnds (e : OutputEngine) (mark : ℕ) (p : OutputEngine × ReadOutputResult) : Type 0 where
  matched :
      p.1.matched ≡ true
      → p.1.timed_out ≡ false
      → p.0.mark_cursor ≡ p.0.buffer.written
      → p.1.cursor ≡ p.0.buffer.written
      → p.0.strip_carry ≡ e.strip_carry
      → WaitEnds e mark p
  timed_out :
      p.1.matched ≡ false
      → p.1.timed_out ≡ true
      → p.0.mark_cursor ≡ e.mark_cursor
      → p.1.cursor ≡ mark
      → p.1.output ≡ read_since p.0.buffer mark
      → p.0.strip_carry ≡ e.strip_carry
      → WaitEnds e mark p

abbrev shown : Option ℕ → ℕ
shown context_lines = min (unwrap_or context_lines 0) max_context_lines

same_engine :
    (e : OutputEngine) (g : BufferInner) (mark : ℕ) (p : OutputEngine × ReadOutputResult)
    → WaitEnds (record e { buffer = g }) mark p
    → WaitEnds e mark p
same_engine e g mark p (matched a b c d f) = matched a b c d f
same_engine e g mark p (timed_out a b c d f h) = timed_out a b c d f h

module _ {R : Type 0} (compile : List ℕ → Option R) (find : R → List ℕ → Option Match) where
  scan_or-ends :
      (e : OutputEngine) (mark : ℕ) (pattern : List ℕ) (context_lines : ℕ) (arrivals : Arrivals)
      (rest : BufferInner → Option (OutputEngine × ReadOutputResult))
      (p : OutputEngine × ReadOutputResult)
      → ((g : BufferInner) → rest g ≡ some p → WaitEnds e mark p)
      → scan_or compile find e mark pattern context_lines arrivals rest ≡ some p
      → WaitEnds e mark p
  scan_or-ends e mark pattern context_lines arrivals rest p ih h =
      go (match_pattern find unread (compile pattern) pattern) h
    where
      g' : BufferInner
      g' = write_all (write_all e.buffer arrivals.before) arrivals.between

      unread : List ℕ
      unread = read_since (write_all e.buffer arrivals.before) mark

      go :
          (o : Option Match)
          → (elim o [ some m ↦ some (hit e g' mark unread m context_lines) | none ↦ rest g' ])
            ≡ some p
          → WaitEnds e mark p
      go none q = ih g' q
      go (some m) q = subst (WaitEnds e mark) (some_inj q) (matched refl refl refl refl refl)

  -- The loop only replaces the buffer of the engine that it goes on with.
  wait_loop-ends :
      (events : List WaitEvent) (e : OutputEngine) (mark : ℕ) (pattern : List ℕ) (lines : ℕ)
      (p : OutputEngine × ReadOutputResult)
      → wait_loop compile find events e mark pattern lines ≡ some p
      → WaitEnds e mark p
  unfolding wait_loop
  wait_loop-ends [] e mark pattern lines p h = cc
  wait_loop-ends (deadline ds ∷ events) e mark pattern lines p h =
      subst (WaitEnds e mark) (some_inj h) (timed_out refl refl refl refl refl refl)
  wait_loop-ends (changed a ∷ events) e mark pattern lines p h =
      scan_or-ends e mark pattern lines a _ p
        (λ g q.
          same_engine e g mark p
            (wait_loop-ends events (record e { buffer = g }) mark pattern lines p q))
        h

  -- Every end of a call: a match moves the mark to the newest byte, a timeout leaves it and
  -- returns what is unread.
  pub read_with_wait_for-ends :
      (e : OutputEngine) (pattern : List ℕ) (context_lines : Option ℕ) (first : Arrivals)
      (events : List WaitEvent) (p : OutputEngine × ReadOutputResult)
      → read_with_wait_for compile find e pattern context_lines first events ≡ some p
      → WaitEnds e e.mark_cursor p
  unfolding read_with_wait_for
  read_with_wait_for-ends e pattern context_lines first events p h =
      scan_or-ends e e.mark_cursor pattern (shown context_lines) first
        (λ g.
          wait_loop compile find events (record e { buffer = g }) e.mark_cursor pattern
            (shown context_lines))
        p
        (λ g q. same_engine e g e.mark_cursor p (
          wait_loop-ends events (record e { buffer = g }) e.mark_cursor pattern
            (shown context_lines) p q))
        h

  scan_or-returns :
      (e : OutputEngine) (mark : ℕ) (pattern : List ℕ) (context_lines : ℕ) (arrivals : Arrivals)
      (rest : BufferInner → Option (OutputEngine × ReadOutputResult))
      → ((g : BufferInner) → (p : OutputEngine × ReadOutputResult) × (rest g ≡ some p))
      → (p : OutputEngine × ReadOutputResult) × (scan_or compile find e mark pattern context_lines
            arrivals rest
          ≡ some p)
  scan_or-returns e mark pattern context_lines arrivals rest ih =
      go (match_pattern find unread (compile pattern) pattern)
    where
      g' : BufferInner
      g' = write_all (write_all e.buffer arrivals.before) arrivals.between

      unread : List ℕ
      unread = read_since (write_all e.buffer arrivals.before) mark

      go :
          (o : Option Match)
          → (p : OutputEngine × ReadOutputResult) × ((elim o [
            | some m ↦ some (hit e g' mark unread m context_lines)
            | none ↦ rest g'
          ])
              ≡ some p)
      go none = ih g'
      go (some m) = (hit e g' mark unread m context_lines, refl)

  wait_loop-returns :
      (events more : List WaitEvent) (ds : List (List ℕ)) (e : OutputEngine) (mark : ℕ)
      (pattern : List ℕ) (lines : ℕ)
      → (p : OutputEngine × ReadOutputResult) × (wait_loop compile find
            (events ++ (deadline ds ∷ more))
            e
            mark
            pattern
            lines
          ≡ some p)
  unfolding wait_loop
  wait_loop-returns [] more ds e mark pattern lines = (timeout e (write_all e.buffer ds) mark, refl)
  wait_loop-returns (deadline ds' ∷ events) more ds e mark pattern lines =
      (timeout e (write_all e.buffer ds') mark, refl)
  wait_loop-returns (changed a ∷ events) more ds e mark pattern lines =
      scan_or-returns e mark pattern lines a _
        (λ g. wait_loop-returns events more ds (record e { buffer = g }) mark pattern lines)

  returned :
      (e : OutputEngine) (pattern : List ℕ) (context_lines : Option ℕ) (first : Arrivals)
      (events more : List WaitEvent) (ds : List (List ℕ))
      → (p : OutputEngine × ReadOutputResult) × (read_with_wait_for compile find e pattern
            context_lines first
            (events ++ (deadline ds ∷ more))
          ≡ some p)
  unfolding read_with_wait_for
  returned e pattern context_lines first events more ds =
      scan_or-returns e e.mark_cursor pattern (shown context_lines) first
        (λ g.
          wait_loop compile find (events ++ (deadline ds ∷ more)) (record e { buffer = g })
            e.mark_cursor pattern (shown context_lines))
        (λ g.
          wait_loop-returns events more ds (record e { buffer = g }) e.mark_cursor pattern
            (shown context_lines))

  -- A waiting read returns as soon as its deadline comes, whatever woke it before, and in one of
  -- two ways: matched, with the mark at the newest byte, or timed out, with the mark left alone
  -- and the unread bytes returned.
  pub read_with_wait_for-returns :
      (e : OutputEngine) (pattern : List ℕ) (context_lines : Option ℕ) (first : Arrivals)
      (events more : List WaitEvent) (ds : List (List ℕ))
      → (p : OutputEngine × ReadOutputResult) × (read_with_wait_for compile find e pattern
            context_lines first
            (events ++ (deadline ds ∷ more))
          ≡ some p)
        × WaitEnds e e.mark_cursor p
  read_with_wait_for-returns e pattern context_lines first events more ds =
      let (p, h) = returned e pattern context_lines first events more ds in
      (
        p,
        h,
        read_with_wait_for-ends e pattern context_lines first (events ++ (deadline ds ∷ more)) p h,
      )
