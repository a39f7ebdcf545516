-- ===== src/AgentBuffer/Serving.antt =====
-- What the daemon's ring serves to a client that polls it.
use term_bridge.Prelude.{
  ℕ, ◌+◌, ◌-◌, ◌%◌, ◌<◌, ◌≡◌, ◌↔◌, refl, sym, ap, ◌∙◌, max, Bool, true, false, List, [], ◌∷◌, ◌++◌,
  length, drop, arith, Bool-cases, inl, inr, leb, ◌==◌, if◌then◌else◌,
}
use term_bridge.Ring
use term_bridge.Ring.{BufferInner, read_since_inner, read_loop, u64}
use term_bridge.Ring.History.{Holds, new_raw-Holds, write-Holds}
use term_bridge.Ring.Read.{earliest, begins}
use term_bridge.Ring.Pages.{read_since-Holds, read_since-write}
use term_bridge.AgentBuffer.{ReadSinceResult, capacity, new, write, read_since, oldest_cursor}

-- The daemon's ring starts, and is written, as the ring of the output engine.
new-raw : (size : ℕ) → new size ≡ Ring.new_raw (capacity size)
unfolding new Ring.new_raw
new-raw size = refl

write-same : (g : BufferInner) (d : List ℕ) → write g d ≡ Ring.write g d
unfolding write Ring.write
write-same g [] = refl
write-same g (b ∷ bs) = refl

first_of :
    (past empty : Bool) (o : List ℕ) (u v w : ℕ)
    → let p : List ℕ × ℕ = if past then ([], u) else if empty then ([], v) else (o, w) in
      p.0 ≡ (if past then [] else if empty then [] else o)
first_of true empty o u v w = refl
first_of false true o u v w = refl
first_of false false o u v w = refl

data_of :
    (past : Bool) (r s : ReadSinceResult)
    → (if past then r else s).data_read ≡ (if past then r.data_read else s.data_read)
data_of true r s = refl
data_of false r s = refl

read_since-same : (g : BufferInner) (c : ℕ) → (read_since g c).data_read ≡ Ring.read_since g c
unfolding read_since Ring.read_since read_since_inner
read_since-same g c =
    data_of (leb g.written c) _ _
    ∙ sym (
        first_of (leb g.written c) (available == 0)
          (read_loop available g.buf g.size phys available) g.written start (start + available))
  where
    start : ℕ
    start = max c (g.written - g.size)

    available : ℕ
    available = g.written - start

    phys : ℕ
    phys =
        if leb g.written g.size then start else (g.head + (start - (g.written - g.size))) % g.size

-- What a read from `c` must return of a ring of `size` bytes that holds the history.
pub record Serves (g : BufferInner) (hist : List ℕ) (c : ℕ) : Type 0 where
  pub data_read : (read_since g c).data_read ≡ drop (begins g.size hist c) hist
  pub cursor_end : (read_since g c).cursor_end ≡ length hist
  pub lost : ((read_since g c).is_truncated ≡ true) ↔ (c < earliest g.size hist)
  pub cursor_start :
      (read_since g c).cursor_start ≡ (if leb (length hist) c then c else begins g.size hist c)
  pub oldest : oldest_cursor g ≡ earliest g.size hist

-- A read of the daemon's ring returns the history from its cursor on, or from the oldest kept
-- byte, with the cursors of both ends, and says whether bytes behind the cursor were lost.
pub read_since-Serves : (g : BufferInner) (hist : List ℕ) (c : ℕ) → Holds g hist → Serves g hist c
read_since-Serves g hist c h = record {
  data_read = read_since-same g c ∙ read_since-Holds g hist h c;
  cursor_end = end_cursor ∙ h.counted;
  lost = truncated;
  cursor_start = start_cursor;
  oldest = unfold oldest_cursor in rw h.counted refl;
}
  where
    end_cursor : (read_since g c).cursor_end ≡ g.written
    end_cursor =
        unfold read_since in
        elim (Bool-cases (leb g.written c)) [ inl past ↦ rw past refl | inr more ↦ rw more refl ]

    start_cursor :
        (read_since g c).cursor_start ≡ (if leb (length hist) c then c else begins g.size hist c)
    start_cursor =
        unfold read_since in
        rw h.counted (elim (Bool-cases (leb (length hist) c)) [
          | inl past ↦ rw past refl
          | inr more ↦ rw more refl
        ])

    truncated : ((read_since g c).is_truncated ≡ true) ↔ (c < earliest g.size hist)
    truncated =
        unfold read_since in
        rw h.counted (elim (Bool-cases (leb (length hist) c)) [
          | inl past ↦ rw past (ground arith)
          | inr more ↦ rw more (ground arith)
        ])

-- A client that polls the daemon's ring from the end cursor of its last read gets, after a
-- write, the bytes of that write, or the last `size` of them.
pub poll-write :
    (g : BufferInner) (hist d : List ℕ) (c : ℕ)
    → Holds g hist
    → length hist + length d < u64
    → (read_since (write g d) (read_since g c).cursor_end).data_read ≡ drop (length d - g.size) d
poll-write g hist d c h fits =
    rw ((read_since-Serves g hist c h).cursor_end, ← h.counted)
      (read_since-same (write g d) g.written
        ∙ (ap (λ (r : BufferInner). Ring.read_since r g.written) (write-same g d)
            ∙ read_since-write g hist d h fits))

-- A new ring of the daemon, of any requested capacity, holds nothing, and a write adds its bytes
-- to what a ring holds, as long as the count fits 64 bits.
pub agent_Holds :
    (size : ℕ) (g : BufferInner) (hist d : List ℕ)
    → Holds g hist
    → length hist + length d < u64
    → Holds (new size) [] × Holds (write g d) (hist ++ d)
agent_Holds size g hist d h fits = (
  rw (new-raw size) (new_raw-Holds (capacity size) (ground arith)),
  rw (write-same g d) (write-Holds g hist d h fits),
)
