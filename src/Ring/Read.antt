-- ===== src/Ring/Read.antt =====
-- The reads of the ring, against the history that it holds.
use term_bridge.Prelude.{
  ℕ, zero, suc, ◌+◌, ◌-◌, ◌%◌, ◌≤◌, ◌<◌, ◌≡◌, refl, sym, ap, ◌∙◌, max, Option, none, some, List, [],
  ◌++◌, length, take, drop, replicate, arith, append-nil, append_split, length-drop,
  length-replicate, drop-append_ge, drop-append_le, take-append_le, take_all, drop_all, take-take,
  drop_at, drop-drop, drop-take, if◌then◌else◌, leb, le→leb, gt→leb, ◌==◌, suc_ne_zero, take-nil,
}
use native.Mathlib.Decide.{dec_le, dec_lt}
use native.Mathlib.Nat.{mod-lt}
use term_bridge.Ring.{BufferInner, at_most, read_loop, read_since_inner}
use term_bridge.Ring.Circle.{read_loop-round, round_from-add}
use term_bridge.Ring.History.{Holds}

-- The oldest cursor that a ring of `size` bytes still serves, and where a read from `c` begins.
abbrev pub earliest : ℕ → List ℕ → ℕ
earliest size hist = length hist - size

abbrev pub begins : ℕ → List ℕ → ℕ → ℕ
begins size hist c = max c (earliest size hist)

-- At most `m` bytes of the history from the cursor `c` on.
abbrev pub page : ℕ → List ℕ → ℕ → ℕ → List ℕ
page size hist c m = take m (drop (begins size hist c) hist)

at_most-le : (m : Option ℕ) (n : ℕ) → at_most m n ≤ n
at_most-le none n = omega arith
at_most-le (some k) n = omega arith

module _ (g : BufferInner) (hist : List ℕ) (h : Holds g hist) where
  -- A full ring, read from `off` bytes behind its oldest.
  full_read :
      (off n : ℕ)
      → g.size ≤ length hist
      → off < g.size
      → n ≤ g.size - off
      → read_loop n g.buf g.size ((g.head + off) % g.size) n
        ≡ take n (drop (length hist - g.size + off) hist)
  full_read off n full lo fits =
      read_loop-round n g.buf g.size ((g.head + off) % g.size) n h.buf_len
        (mod-lt (g.head + off) h.nonempty) (omega arith) (omega arith)
      ∙ rw (round_from-add g.head off g.size g.buf h.buf_len h.head_in lo, h.window, kept)
          (take-append_le n (drop off (drop (length hist - g.size) hist))
              (take off (drop (length hist - g.size) hist))
              (omega (
                arith,
                length-drop off (drop (length hist - g.size) hist),
                length-drop (length hist - g.size) hist,
              ))
            ∙ rw (drop-drop off (length hist - g.size) hist) refl)
    where
      kept : drop (length hist) (replicate g.size 0 ++ hist) ≡ drop (length hist - g.size) hist
      kept =
          drop-append_ge (length hist) (replicate g.size 0) hist
            (omega (arith, length-replicate {A = ℕ} g.size 0))
          ∙ drop_at (length hist - length (replicate {A = ℕ} g.size 0)) (length hist - g.size) hist
              (omega (arith, length-replicate {A = ℕ} g.size 0))

  -- Until it has wrapped, the ring has the history at its own indices.
  prefix_kept : length hist ≤ g.size → take (length hist) g.buf ≡ hist
  prefix_kept le = elim (dec_lt (length hist) g.size) [
    | yes lt ↦
        (append_split (drop (length hist) g.buf) (take (length hist) g.buf)
          (drop (length hist) (replicate g.size 0)) hist
          (rw (h.unfull lt) at h.window
            ∙ drop-append_le (length hist) (replicate g.size 0) hist
                (omega (arith, length-replicate {A = ℕ} g.size 0)))
          (omega (
            arith,
            h.buf_len,
            length-drop (length hist) g.buf,
            length-drop (length hist) (replicate {A = ℕ} g.size 0),
            length-replicate {A = ℕ} g.size 0,
          ))).1
    | no ge ↦
        take_all (length hist) g.buf (omega (arith, h.buf_len))
        ∙ (sym (append-nil g.buf)
            ∙ (rw (h.just_full (omega arith)) at h.window
                ∙ (drop-append_ge (length hist) (replicate g.size 0) hist
                      (omega (arith, length-replicate {A = ℕ} g.size 0))
                    ∙ drop_at (length hist - length (replicate {A = ℕ} g.size 0)) 0 hist
                        (omega (arith, length-replicate {A = ℕ} g.size 0)))))
  ]

  unfull_read :
      (start n : ℕ)
      → length hist ≤ g.size
      → start < length hist
      → n ≤ length hist - start
      → read_loop n g.buf g.size start n ≡ take n (drop start hist)
  unfull_read start n le lt fits =
      read_loop-round n g.buf g.size start n h.buf_len (omega arith) (omega arith) (omega arith)
      ∙ (take-append_le n (drop start g.buf) (take start g.buf)
            (omega (arith, length-drop start g.buf, h.buf_len))
          ∙ sym (
              ap (λ l. take n (drop start l)) (sym (prefix_kept le))
              ∙ (ap (λ j. take n (drop start (take j g.buf))) upto
                  ∙ (ap (take n) (drop-take start (length hist - start) g.buf)
                      ∙ take-take n (length hist - start) (drop start g.buf) fits))))
    where
      upto : length hist ≡ start + (length hist - start)
      upto = omega arith

  -- Both layouts at once: `n` bytes from `start`, where the history still holds them.
  any_read :
      (start n : ℕ)
      → earliest g.size hist ≤ start
      → start < length hist
      → n ≤ length hist - start
      → read_loop n g.buf g.size
          (if leb (length hist) g.size
            then start
            else (g.head + (start - (length hist - g.size))) % g.size)
          n
        ≡ take n (drop start hist)
  any_read start n old lt fits = elim (dec_le (length hist) g.size) [
    | yes le ↦ rw (le→leb (length hist) g.size le) (unfull_read start n le lt fits)
    | no gt ↦ rw (gt→leb (length hist) g.size (omega arith)) (
        full_read (start - (length hist - g.size)) n (omega arith) (omega arith) (omega arith)
        ∙ rw same refl)
  ]
    where
      same : length hist - g.size + (start - (length hist - g.size)) ≡ start
      same = omega arith

  -- The test for an empty read changes nothing.
  not_empty :
      (start n : ℕ)
      → earliest g.size hist ≤ start
      → start < length hist
      → n ≤ length hist - start
      → ◌≡◌ {A = List ℕ × ℕ}
          (if n == 0 then ([], start) else (
            read_loop n g.buf g.size
                (if leb (length hist) g.size
                  then start
                  else (g.head + (start - (length hist - g.size))) % g.size)
                n,
            start + n,
          ))
          (take n (drop start hist), start + n)
  not_empty start zero old lt fits =
      ap (λ (c : ℕ). (let p : List ℕ × ℕ = ([], c) in p))
        (let e : start ≡ start + 0 = omega arith in e)
  not_empty start (suc n) old lt fits =
      rw (suc_ne_zero n) (rw (any_read start (suc n) old lt fits) refl)

  -- A read from `c` of at most `m` bytes: its output and its cursor.
  pub read_since_inner-Holds :
      (c : ℕ) (m : Option ℕ)
      → let start = begins g.size hist c in
        let n = at_most m (length hist - start) in
        read_since_inner g c m
        ≡ (take n (drop start hist), if leb (length hist) c then length hist else start + n)
  unfolding read_since_inner
  read_since_inner-Holds c m = rw h.counted (elim (dec_le (length hist) c) [
    | yes past ↦
        rw (le→leb (length hist) c past)
          (rw (drop_all (begins g.size hist c) hist (omega arith), take-nil) refl)
    | no less ↦ rw (gt→leb (length hist) c (omega arith)) (
        not_empty (begins g.size hist c) (at_most m (length hist - begins g.size hist c))
          (omega arith) (omega arith) (at_most-le m (length hist - begins g.size hist c)))
  ])
