-- ===== src/Ring/History.antt =====
-- What the ring holds of the bytes that were ever written: a `History`.
use term_bridge.Prelude.{
  ℕ, zero, suc, ◌+◌, ◌-◌, ◌%◌, ◌≤◌, ◌<◌, ◌≡◌, refl, sym, ap, ◌∙◌, List, [], ◌∷◌, ◌++◌, length, drop,
  replicate, arith, append-nil, append_assoc, length-append, length-drop, length-replicate,
  drop-append_ge, drop-append_le, drop_at, drop-drop, leb, le→leb, gt→leb, inl, inr, Bool-cases,
  ◌==◌,
}
use native.Mathlib.Decide.{dec_le}
use native.Mathlib.Nat.{mod-eq_of_lt, mod_self, mod-lt}
use term_bridge.Ring.{BufferInner, write, write_locked, copy_loop, new_raw, u64}
use term_bridge.Ring.Copy.{rotated, Copied, copy_loop-Copied}

-- `g` is the ring after the bytes of `hist` were written to it, the oldest first. Read from its
-- oldest byte, it has the last `size` bytes of `hist`, behind zeros while `hist` is shorter; until
-- it is full it also has them at the indices that they have in `hist`.
pub record Holds (g : BufferInner) (hist : List ℕ) : Type 0 where
  pub nonempty : 0 < g.size
  pub head_in : g.head < g.size
  pub buf_len : length g.buf ≡ g.size
  pub counted : g.written ≡ length hist
  pub window : rotated g ≡ drop (length hist) (replicate g.size 0 ++ hist)
  pub unfull : length hist < g.size → g.head ≡ length hist
  pub just_full : length hist ≡ g.size → g.head ≡ 0

pub new_raw-Holds : (size : ℕ) → 0 < size → Holds (new_raw size) []
unfolding new_raw
new_raw-Holds size h = record {
  nonempty = h;
  head_in = h;
  buf_len = length-replicate size 0;
  counted = refl;
  window = refl;
  unfull = λ _. refl;
  just_full = λ _. refl;
}

-- More history behind a window.
window_grows :
    (size : ℕ) (hist d : List ℕ)
    → length d < size
    → drop (length d) (drop (length hist) (replicate size 0 ++ hist)) ++ d
      ≡ drop (length (hist ++ d)) (replicate size 0 ++ (hist ++ d))
window_grows size hist d h =
    rw
      (
        drop-drop (length d) (length hist) (replicate size 0 ++ hist),
        ← append_assoc (replicate size 0) hist d,
        length-append hist d,
      )
      (sym (
        drop-append_le (length hist + length d) (replicate size 0 ++ hist) d
          (omega (arith, length-append (replicate size 0) hist, length-replicate {A = ℕ} size 0))))

-- Data at least as long as the ring replaces all of it.
window_replaced :
    (size : ℕ) (hist d : List ℕ)
    → size ≤ length d
    → drop (length d - size) d ≡ drop (length (hist ++ d)) (replicate size 0 ++ (hist ++ d))
window_replaced size hist d h = sym (
    drop-append_ge (length (hist ++ d)) (replicate size 0) (hist ++ d)
      (omega (arith, length-append hist d, length-replicate {A = ℕ} size 0))
    ∙ (drop-append_ge (length (hist ++ d) - length (replicate size 0)) hist d
          (omega (arith, length-append hist d, length-replicate {A = ℕ} size 0))
        ∙ drop_at (length (hist ++ d) - length (replicate size 0) - length hist) (length d - size) d
            (omega (arith, length-append hist d, length-replicate {A = ℕ} size 0))))

-- The long write copies the last `size` bytes and starts again at index 0.
long-Holds :
    (g : BufferInner) (hist d : List ℕ)
    → Holds g hist
    → g.size ≤ length d
    → length hist + length d < u64
    → Holds (write_locked g d) (hist ++ d)
unfolding write_locked
long-Holds g hist d h long fits = rw (le→leb g.size (length d) long) (record {
  nonempty = h.nonempty;
  head_in = h.nonempty;
  buf_len = omega (arith, length-drop (length d - g.size) d);
  counted =
      mod-eq_of_lt (omega (arith, h.counted)) ∙ omega (arith, h.counted, length-append hist d);
  window = append-nil _ ∙ window_replaced g.size hist d long;
  unfull = λ less. absurd (omega (arith, length-append hist d));
  just_full = λ _. refl;
})

short-Holds :
    (g g' : BufferInner) (hist d : List ℕ)
    → Holds g hist
    → 0 < length d
    → length d < g.size
    → length hist + length d < u64
    → Copied g d g'
    → Holds (record g' { written = (g'.written + length d) % u64 }) (hist ++ d)
short-Holds g g' hist d h pos short fits c = record {
  nonempty = omega (arith, c.size_kept, h.nonempty);
  head_in = rw (c.head_at, c.size_kept) (mod-lt (g.head + length d) h.nonempty);
  buf_len = c.buf_len ∙ sym c.size_kept;
  counted =
      mod-eq_of_lt (omega (arith, h.counted, c.written_kept))
      ∙ omega (arith, h.counted, c.written_kept, length-append hist d);
  window = c.window ∙ rw (h.window, c.size_kept) (window_grows g.size hist d short);
  unfull = λ less.
      c.head_at
      ∙ (mod-eq_of_lt (omega (arith, h.unfull, length-append hist d, c.size_kept))
          ∙ omega (arith, h.unfull, length-append hist d, c.size_kept));
  just_full =
      λ full. c.head_at ∙ (ap (λ t. t % g.size) (filled (full ∙ c.size_kept)) ∙ mod_self g.size);
}
  where
    filled : length (hist ++ d) ≡ g.size → g.head + length d ≡ g.size
    filled e = omega (arith, h.unfull, length-append hist d)

-- A write, short or at least as long as the ring, leaves a ring that holds the longer history:
-- read from its oldest byte it has the last `size` bytes ever written, and `written` counts them
-- all, as long as the count fits 64 bits.
pub write-Holds :
    (g : BufferInner) (hist d : List ℕ)
    → Holds g hist
    → length hist + length d < u64
    → Holds (write g d) (hist ++ d)
unfolding write
write-Holds g hist [] h fits = rw append-nil h
write-Holds g hist (b ∷ bs) h fits = elim (dec_le g.size (length (b ∷ bs))) [
  | yes long ↦ long-Holds g hist (b ∷ bs) h long fits
  | no less ↦
      unfold write_locked in
      rw (gt→leb g.size (length (b ∷ bs)) (omega arith)) (
        short-Holds g (copy_loop (length (b ∷ bs)) g (b ∷ bs)) hist (b ∷ bs) h (omega arith)
          (omega arith) fits
          (copy_loop-Copied (length (b ∷ bs)) g (b ∷ bs) h.head_in h.buf_len (omega arith)
            (omega arith) (omega arith)))
]

size-copy_loop : (f : ℕ) (g : BufferInner) (d : List ℕ) → (copy_loop f g d).size ≡ g.size
unfolding copy_loop
size-copy_loop zero g d = refl
size-copy_loop (suc f) g d = elim (Bool-cases (length d == 0)) [
  | inl done ↦ rw done refl
  | inr more ↦ rw more (size-copy_loop f _ _)
]

-- A write leaves the capacity alone.
pub size-write : (g : BufferInner) (d : List ℕ) → (write g d).size ≡ g.size
unfolding write write_locked
size-write g [] = refl
size-write g (b ∷ bs) = elim (Bool-cases (leb g.size (length (b ∷ bs)))) [
  | inl long ↦ rw long refl
  | inr short ↦ rw short (size-copy_loop (length (b ∷ bs)) g (b ∷ bs))
]

written-copy_loop : (f : ℕ) (g : BufferInner) (d : List ℕ) → (copy_loop f g d).written ≡ g.written
unfolding copy_loop
written-copy_loop zero g d = refl
written-copy_loop (suc f) g d = elim (Bool-cases (length d == 0)) [
  | inl done ↦ rw done refl
  | inr more ↦ rw more (written-copy_loop f _ _)
]

-- The count of the bytes wraps at 2 ^ 64.
pub written-write :
    (g : BufferInner) (d : List ℕ)
    → g.written < u64
    → (write g d).written ≡ (g.written + length d) % u64
unfolding write write_locked
written-write g [] h = omega arith
written-write g (b ∷ bs) h = elim (Bool-cases (leb g.size (length (b ∷ bs)))) [
  | inl long ↦ rw long refl
  | inr short ↦
      rw short
        (ap (λ w. (w + length (b ∷ bs)) % u64) (written-copy_loop (length (b ∷ bs)) g (b ∷ bs)))
]
