-- ===== src/Ring/Copy.antt =====
-- The copying loop of `write`: the bytes enter behind the newest ones, across the end of `buf`.
use term_bridge.Prelude.{
  ℕ, zero, suc, ◌+◌, ◌-◌, ◌%◌, ◌≤◌, ◌<◌, ◌≡◌, refl, sym, ap, ◌∙◌, min, List, [], ◌∷◌, ◌++◌, length,
  take, drop, arith, append-nil, append_assoc, length-append, length-take, length-drop, take_all,
  drop_all, drop-append_ge, drop-append_le, drop_at, take-append-drop, suc_ne_zero,
}
use native.Mathlib.Decide.{dec_lt, dec_le}
use native.Mathlib.Nat.{mod-eq_of_lt, mod_self, add-mod_left}
use term_bridge.Ring.{BufferInner, overwrite, copy_loop}

-- `buf` read from its oldest byte to its newest.
abbrev pub rotated : BufferInner → List ℕ
rotated g = drop g.head g.buf ++ take g.head g.buf

take_exact {ℓ} : {A : Type ℓ} (p q : List A) → take (length p) (p ++ q) ≡ p
take_exact [] q = refl
take_exact (x ∷ p) q = ap (λ l. x ∷ l) (take_exact p q)

drop_exact {ℓ} : {A : Type ℓ} (p q : List A) → drop (length p) (p ++ q) ≡ q
drop_exact [] q = refl
drop_exact (x ∷ p) q = drop_exact p q

-- A write into the second of two parts leaves the first alone.
overwrite_split : (p q d : List ℕ) → overwrite (p ++ q) (length p) d ≡ p ++ (d ++ drop (length d) q)
overwrite_split p q d = rw (take_exact p q) (
    ap (λ l. p ++ (d ++ l))
      (drop-append_ge (length p + length d) p q (omega arith)
        ∙ drop_at (length p + length d - length p) (length d) q (omega arith)))

copy_done : (f : ℕ) (g : BufferInner) → copy_loop f g [] ≡ g
unfolding copy_loop
copy_done zero g = refl
copy_done (suc f) g = refl

-- One round of the loop on data that is not empty.
copy_round :
    (f : ℕ) (g : BufferInner) (d : List ℕ) (n : ℕ)
    → 0 < length d
    → min (length d) (g.size - g.head) ≡ n
    → copy_loop (suc f) g d
      ≡ copy_loop f
          (record g { buf = overwrite g.buf g.head (take n d); head = (g.head + n) % g.size })
          (drop n d)
unfolding copy_loop
copy_round f g [] n h e = absurd (omega arith)
copy_round f g (x ∷ d) n h e = rw e (rw (suc_ne_zero (length d)) refl)

-- The data fits before the end of `buf`.
copy_fits :
    (f : ℕ) (g : BufferInner) (d : List ℕ)
    → 0 < length d
    → length d ≤ g.size - g.head
    → copy_loop (suc f) g d
      ≡ record g { buf = overwrite g.buf g.head d; head = (g.head + length d) % g.size }
copy_fits f g d h fits =
    copy_round f g d (length d) h (omega arith)
    ∙ rw (take_all (length d) d (omega arith), drop_all (length d) d (omega arith)) (copy_done f _)

-- The data fills `buf` up to its end, and goes on at its start.
copy_wraps :
    (f : ℕ) (g : BufferInner) (d1 d2 : List ℕ)
    → g.head < g.size
    → length d1 ≡ g.size - g.head
    → 0 < length d2
    → length d2 ≤ g.size
    → copy_loop (suc (suc f)) g (d1 ++ d2)
      ≡ record g { buf = overwrite (overwrite g.buf g.head d1) 0 d2; head = length d2 % g.size }
copy_wraps f g d1 d2 lt e1 h2 fits =
    copy_round (suc f) g (d1 ++ d2) (length d1) (omega (arith, length-append d1 d2))
      (omega (arith, length-append d1 d2))
    ∙ rw (take_exact d1 d2, drop_exact d1 d2, wraps)
        (copy_fits f (record g { buf = overwrite g.buf g.head d1; head = 0 }) d2 h2 (omega arith)
          ∙ rw zero_add refl)
  where
    wraps : (g.head + length d1) % g.size ≡ 0
    wraps =
        (let full : g.head + length d1 ≡ g.size = omega arith in ap (λ t. t % g.size) full)
        ∙ mod_self g.size

    zero_add : 0 + length d2 ≡ length d2
    zero_add = omega arith

-- What a copy of `d` makes of the buffer `g`.
pub record Copied (g : BufferInner) (d : List ℕ) (g' : BufferInner) : Type 0 where
  pub window : rotated g' ≡ drop (length d) (rotated g) ++ d
  pub buf_len : length g'.buf ≡ g.size
  pub head_at : g'.head ≡ (g.head + length d) % g.size
  pub size_kept : g'.size ≡ g.size
  pub written_kept : g'.written ≡ g.written

-- A buffer cut anywhere rotates at the cut.
pub rotated_split :
    (h : ℕ) (p q : List ℕ) → length p ≡ h → drop h (p ++ q) ++ take h (p ++ q) ≡ q ++ p
rotated_split h p q e = rw (← e) (rw (drop_exact p q, take_exact p q) refl)

module _ (g : BufferInner) (p q d : List ℕ) (cut : g.buf ≡ p ++ q) (at_head : length p ≡ g.head)
    (whole : length p + length q ≡ g.size) where
  before : rotated g ≡ q ++ p
  before = rw cut (rotated_split g.head p q at_head)

  written_at : overwrite g.buf g.head d ≡ p ++ (d ++ drop (length d) q)
  written_at = rw (cut, ← at_head) (overwrite_split p q d)

  length-written_at : length d ≤ length q → length (p ++ (d ++ drop (length d) q)) ≡ g.size
  length-written_at fits = omega (
    arith,
    length-append p (d ++ drop (length d) q),
    length-append d (drop (length d) q),
    length-drop (length d) q,
  )

  fits-Copied :
      (f : ℕ)
      → 0 < length d
      → length d < g.size
      → length d ≤ length q
      → Copied g d (copy_loop (suc f) g d)
  fits-Copied f pos short fits = rw (copy_fits f g d pos (omega arith)) (record {
    window = rw written_at (elim (dec_lt (g.head + length d) g.size) [
      | yes lt ↦ rw (mod-eq_of_lt lt) (inside lt)
      | no ge ↦ rw (ends (omega arith)) (at_end (omega arith))
    ]);
    buf_len = rw written_at (length-written_at fits);
    head_at = refl;
    size_kept = refl;
    written_kept = refl;
  })
    where
      tail : List ℕ
      tail = drop (length d) q

      grown : length (p ++ d) ≡ g.head + length d
      grown = omega (arith, length-append p d)

      old : drop (length d) (rotated g) ++ d ≡ (tail ++ p) ++ d
      old = rw (before, drop-append_le (length d) q p fits) refl

      inside :
          g.head + length d < g.size
          → drop (g.head + length d) (p ++ (d ++ tail))
              ++ take (g.head + length d) (p ++ (d ++ tail))
            ≡ drop (length d) (rotated g) ++ d
      inside lt = rw (← append_assoc p d tail) (
          rotated_split (g.head + length d) (p ++ d) tail grown
          ∙ (sym (append_assoc tail p d) ∙ sym old))

      ends : g.head + length d ≡ g.size → (g.head + length d) % g.size ≡ 0
      ends e = ap (λ t. t % g.size) e ∙ mod_self g.size

      none_left : g.head + length d ≡ g.size → tail ≡ []
      none_left e = drop_all (length d) q (omega arith)

      at_end :
          g.head + length d ≡ g.size → (p ++ (d ++ tail)) ++ [] ≡ drop (length d) (rotated g) ++ d
      at_end e = rw (append-nil, old, none_left e, append-nil) refl

module _ (g : BufferInner) (p q d1 d2 : List ℕ) (cut : g.buf ≡ p ++ q) (at_head : length p ≡ g.head)
    (whole : length p + length q ≡ g.size) (lt : g.head < g.size) (fills : length d1 ≡ length q)
    (pos : 0 < length d2) (short : length d2 ≤ length p) where
  first_part : overwrite g.buf g.head d1 ≡ p ++ d1
  first_part =
      written_at g p q d1 cut at_head whole
      ∙ ap (λ l. p ++ l) (rw (drop_all (length d1) q (omega arith)) (append-nil d1))

  second_part : overwrite (p ++ d1) 0 d2 ≡ d2 ++ (drop (length d2) p ++ d1)
  second_part =
      ap (λ l. d2 ++ l)
        (drop_at (0 + length d2) (length d2) (p ++ d1) (omega arith)
          ∙ drop-append_le (length d2) p d1 short)

  old_end : drop (length (d1 ++ d2)) (rotated g) ≡ drop (length d2) p
  old_end = rw (before g p q d1 cut at_head whole) (
      drop-append_ge (length (d1 ++ d2)) q p (omega (arith, length-append d1 d2))
      ∙ drop_at (length (d1 ++ d2) - length q) (length d2) p (omega (arith, length-append d1 d2)))

  head_after : length d2 < g.size → length d2 ≡ (g.head + length (d1 ++ d2)) % g.size
  head_after less =
      let e : g.head + length (d1 ++ d2) ≡ g.size + length d2 =
        omega (arith, length-append d1 d2) in
      rw e (sym (add-mod_left g.size (length d2) ∙ mod-eq_of_lt less))

  wraps-Copied :
      (f : ℕ) → length d2 < g.size → Copied g (d1 ++ d2) (copy_loop (suc (suc f)) g (d1 ++ d2))
  wraps-Copied f less = rw (copy_wraps f g d1 d2 lt (omega arith) pos (omega arith)) (
      rw (first_part, second_part, mod-eq_of_lt less)
        (record {
          window =
              rotated_split (length d2) d2 (drop (length d2) p ++ d1) refl
              ∙ rw (old_end, append_assoc) refl;
          buf_len = omega (
            arith,
            length-append d2 (drop (length d2) p ++ d1),
            length-append (drop (length d2) p) d1,
            length-drop (length d2) p,
          );
          head_at = head_after less;
          size_kept = refl;
          written_kept = refl;
        }))

-- The loop of `write` puts data shorter than the buffer behind what is there, and as many rounds
-- as bytes are enough.
pub copy_loop-Copied :
    (f : ℕ) (g : BufferInner) (d : List ℕ)
    → g.head < g.size
    → length g.buf ≡ g.size
    → 0 < length d
    → length d < g.size
    → length d ≤ f
    → Copied g d (copy_loop f g d)
copy_loop-Copied zero g d lt len pos short enough = absurd (omega arith)
copy_loop-Copied (suc f) g d lt len pos short enough = elim (dec_le (length d) (g.size - g.head)) [
  | yes fits ↦
      fits-Copied g p q d cut at_head whole f pos short (omega (arith, length-drop g.head g.buf))
  | no more ↦ split f (omega arith) (omega arith)
]
  where
    p : List ℕ
    p = take g.head g.buf

    q : List ℕ
    q = drop g.head g.buf

    cut : g.buf ≡ p ++ q
    cut = sym (take-append-drop g.head g.buf)

    at_head : length p ≡ g.head
    at_head = omega (arith, length-take g.head g.buf)

    whole : length p + length q ≡ g.size
    whole = omega (arith, length-take g.head g.buf, length-drop g.head g.buf)

    n : ℕ
    n = g.size - g.head

    split : (k : ℕ) → n < length d → length d ≤ suc k → Copied g d (copy_loop (suc k) g d)
    split zero m e = absurd (omega arith)
    split (suc k) m e = rw (take-append-drop n d) at (
        wraps-Copied g p q (take n d) (drop n d) cut at_head whole lt
          (omega (arith, length-take n d, length-drop g.head g.buf))
          (omega (arith, length-drop n d)) (omega (arith, length-drop n d, at_head)) k
          (omega (arith, length-drop n d)))
