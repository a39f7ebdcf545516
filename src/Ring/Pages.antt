-- ===== src/Ring/Pages.antt =====
-- `read_since`, `read_since_max` and `is_truncated`, against the history that the ring holds.
use term_bridge.Prelude.{
  ℕ, ◌+◌, ◌-◌, ◌≤◌, ◌<◌, ◌≡◌, ◌↔◌, ◌⊎◌, refl, ap, ◌∙◌, min, true, none, some, List, ◌++◌, length,
  take, drop, arith, length-append, length-drop, length-take, drop-append_ge, take_all, take-min,
  drop_all, drop_at, drop-drop, take-append-drop-length, take-nil, leb, if◌then◌else◌, le→leb,
  gt→leb,
}
use native.Mathlib.Decide.{dec_le}
use term_bridge.Ring.{
  BufferInner, read_since_inner, read_since, read_since_max, is_truncated, write, u64,
}
use term_bridge.Ring.History.{Holds, write-Holds, size-write}
use term_bridge.Ring.Read.{earliest, begins, page, read_since_inner-Holds}

module _ (g : BufferInner) (hist : List ℕ) (h : Holds g hist) (c : ℕ) where
  -- `read_since` returns the history from the cursor on, or from the oldest byte that is kept.
  pub read_since-Holds : read_since g c ≡ drop (begins g.size hist c) hist
  unfolding read_since
  read_since-Holds =
      ap (λ p. p.0) (read_since_inner-Holds g hist h c none)
      ∙ take_all (length hist - begins g.size hist c) (drop (begins g.size hist c) hist)
          (omega (arith, length-drop (begins g.size hist c) hist))

  -- A cursor is truncated exactly when it lies before the oldest kept byte or past the newest.
  pub is_truncated-Holds :
      (is_truncated g c ≡ true) ↔ ((c < earliest g.size hist) ⊎ (length hist < c))
  unfolding is_truncated
  is_truncated-Holds = rw h.counted (ground arith)

-- What a page of at most `m` bytes from the cursor `c` must be.
pub record ServesPage (size : ℕ) (hist : List ℕ) (c m : ℕ) (g : BufferInner) : Type 0 where
  pub output : (read_since_max g c m).output ≡ page size hist c m
  pub new_cursor : (read_since_max g c m).new_cursor ≡ (
      if leb (length hist) c then length hist else begins size hist c + length (page size hist c m))
  pub has_more :
      ((read_since_max g c m).has_more ≡ true) ↔ ((read_since_max g c m).new_cursor < length hist)
  pub is_truncated :
      ((read_since_max g c m).is_truncated ≡ true) ↔ ((c < earliest size hist) ⊎ (length hist < c))

-- A page read of a ring that holds a history returns the page of the history, the cursor behind
-- it, whether more follows, and whether the cursor asked for is out of range.
pub read_since_max-ServesPage :
    (g : BufferInner) (hist : List ℕ) (c m : ℕ) → Holds g hist → ServesPage g.size hist c m g
unfolding read_since_max
read_since_max-ServesPage g hist c m h = record {
  output = read_output;
  new_cursor =
      rw whole
        (ap (λ k. if leb (length hist) c then length hist else begins g.size hist c + k) served);
  has_more = rw h.counted (ground arith);
  is_truncated = is_truncated-Holds g hist h c;
}
  where
    whole : read_since_inner g c (some m) ≡ (
      take (min (length hist - begins g.size hist c) m) (drop (begins g.size hist c) hist),
      if leb (length hist) c
          then length hist
          else begins g.size hist c + min (length hist - begins g.size hist c) m,
    )
    whole = read_since_inner-Holds g hist h c (some m)

    kept :
        take (min (length hist - begins g.size hist c) m) (drop (begins g.size hist c) hist)
        ≡ page g.size hist c m
    kept =
        take-min (length hist - begins g.size hist c) m (drop (begins g.size hist c) hist)
          (length-drop (begins g.size hist c) hist)

    read_output : (read_since_inner g c (some m)).0 ≡ page g.size hist c m
    read_output = ap (λ p. p.0) whole ∙ kept

    served : min (length hist - begins g.size hist c) m ≡ length (page g.size hist c m)
    served = omega (
      arith,
      length-take m (drop (begins g.size hist c) hist),
      length-drop (begins g.size hist c) hist,
    )

-- A page and then a read from its cursor return together what one read from the page's start
-- returns: nothing is skipped or repeated.
pub page-then-rest :
    (g : BufferInner) (hist : List ℕ) (c m : ℕ)
    → Holds g hist
    → (read_since_max g c m).output ++ read_since g (read_since_max g c m).new_cursor
      ≡ read_since g c
page-then-rest g hist c m h =
    rw (r.output, r.new_cursor, read_since-Holds g hist h, read_since-Holds g hist h)
      (elim (dec_le (length hist) c) [
        | yes past ↦
            rw
              (
                le→leb (length hist) c past,
                drop_all from hist (omega arith),
                take-nil,
                drop_all (begins g.size hist (length hist)) hist (omega arith),
              )
              refl
        | no less ↦
            rw (gt→leb (length hist) c (omega arith), next)
              (rw (← drop-drop (length (page g.size hist c m)) from hist)
                (take-append-drop-length m (drop from hist)))
      ])
  where
    from : ℕ
    from = begins g.size hist c

    next :
        begins g.size hist (from + length (page g.size hist c m))
        ≡ from + length (page g.size hist c m)
    next = omega arith

    r : ServesPage g.size hist c m g
    r = read_since_max-ServesPage g hist c m h

-- A page of at least one byte that says that more follows has a cursor beyond the one that was
-- asked for.
pub page-progress :
    (g : BufferInner) (hist : List ℕ) (c m : ℕ)
    → Holds g hist
    → 0 < m
    → (read_since_max g c m).has_more ≡ true
    → c < (read_since_max g c m).new_cursor
page-progress g hist c m h pos more = elim (dec_le (length hist) c) [
  | yes past ↦ absurd (omega (arith, r.has_more.0 more, r.new_cursor ∙ at_end past))
  | no less ↦ omega (
    arith,
    r.new_cursor ∙ ahead less,
    length-take m (drop (begins g.size hist c) hist),
    length-drop (begins g.size hist c) hist,
  )
]
  where
    r : ServesPage g.size hist c m g
    r = read_since_max-ServesPage g hist c m h

    after : ℕ
    after = begins g.size hist c + length (page g.size hist c m)

    at_end : length hist ≤ c → (if leb (length hist) c then length hist else after) ≡ length hist
    at_end past = rw (le→leb (length hist) c past) refl

    ahead : ¬ (length hist ≤ c) → (if leb (length hist) c then length hist else after) ≡ after
    ahead less = rw (gt→leb (length hist) c (omega arith)) refl

-- A reader whose cursor is `written` reads from the ring, after a write, the bytes of that
-- write, or the last `size` of them.
pub read_since-write :
    (g : BufferInner) (hist d : List ℕ)
    → Holds g hist
    → length hist + length d < u64
    → read_since (write g d) g.written ≡ drop (length d - g.size) d
read_since-write g hist d h fits =
    read_since-Holds (write g d) (hist ++ d) (write-Holds g hist d h fits) g.written
    ∙ rw (size-write g d, h.counted)
        (drop-append_ge (begins g.size (hist ++ d) (length hist)) hist d (omega arith)
          ∙ drop_at (begins g.size (hist ++ d) (length hist) - length hist) (length d - g.size) d
              (omega (arith, length-append hist d)))
