-- ===== src/Ring/Circle.antt =====
-- The reading loop of `read_since_inner` goes round `buf` from any position.
use term_bridge.Prelude.{
  ℕ, zero, suc, ◌+◌, ◌-◌, ◌%◌, ◌≤◌, ◌<◌, ◌≡◌, refl, sym, ap, ◌∙◌, min, List, [], ◌++◌, length, take,
  drop, arith, append-nil, append_assoc, length-append, length-drop, length-take, take-append_ge,
  take-append_le, take-append-drop, take_all, take-take, take_at, drop-take, pos_ne_zero,
}
use native.Mathlib.Decide.{dec_le, dec_lt}
use native.Mathlib.Nat.{mod-eq_of_lt, mod_self, add-mod_left}
use term_bridge.Ring.{slice, read_loop}
use term_bridge.Ring.Copy.{rotated_split}

-- `buf` from index `at` round to `at`.
abbrev pub round_from : ℕ → List ℕ → List ℕ
round_from at buf = drop at buf ++ take at buf

slice_eq : (buf : List ℕ) (at k : ℕ) → slice buf at (at + k) ≡ take k (drop at buf)
slice_eq buf at k = drop-take at k buf

read_done : (f : ℕ) (buf : List ℕ) (size phys : ℕ) → read_loop f buf size phys 0 ≡ []
unfolding read_loop
read_done zero buf size phys = refl
read_done (suc f) buf size phys = refl

read_round :
    (f : ℕ) (buf : List ℕ) (size phys n k : ℕ)
    → 0 < n
    → min (size - phys) n ≡ k
    → read_loop (suc f) buf size phys n
      ≡ take k (drop phys buf) ++ read_loop f buf size ((phys + k) % size) (n - k)
unfolding read_loop
read_round f buf size phys n k pos e = rw (e, pos_ne_zero n pos) (rw (slice_eq buf phys k) refl)

-- The bytes asked for end before `buf` does.
read_straight :
    (f : ℕ) (buf : List ℕ) (size phys n : ℕ)
    → n ≤ size - phys
    → n ≤ f
    → read_loop f buf size phys n ≡ take n (drop phys buf)
read_straight f buf size phys zero fits enough = read_done f buf size phys
read_straight zero buf size phys (suc n) fits enough = absurd (omega arith)
read_straight (suc f) buf size phys (suc n) fits enough =
    read_round f buf size phys (suc n) (suc n) (omega arith) (omega arith)
    ∙ rw none_left (
        rw (read_done f buf size ((phys + suc n) % size))
          (append-nil (take (suc n) (drop phys buf))))
  where
    none_left : suc n - suc n ≡ 0
    none_left = omega arith

-- Up to a whole turn is read in order, and as many rounds as bytes are enough.
pub read_loop-round :
    (f : ℕ) (buf : List ℕ) (size phys n : ℕ)
    → length buf ≡ size
    → phys < size
    → n ≤ size
    → n ≤ f
    → read_loop f buf size phys n ≡ take n (round_from phys buf)
read_loop-round f buf size phys n len lt turn enough = elim (dec_le n (size - phys)) [
  | yes fits ↦
      read_straight f buf size phys n fits enough
      ∙ sym (take-append_le n (drop phys buf) (take phys buf) (omega (arith, length-drop phys buf)))
  | no more ↦ across f (omega arith) enough
]
  where
    k : ℕ
    k = size - phys

    second : take (n - k) (take phys buf) ≡ take (n - k) buf
    second = take-take (n - k) phys buf (omega arith)

    wraps : (phys + k) % size ≡ 0
    wraps = (let e : phys + k ≡ size = omega arith in ap (λ t. t % size) e) ∙ mod_self size

    first : take k (drop phys buf) ≡ drop phys buf
    first = take_all k (drop phys buf) (omega (arith, length-drop phys buf))

    target : k < n → take n (round_from phys buf) ≡ drop phys buf ++ take (n - k) buf
    target m =
        take-append_ge n (drop phys buf) (take phys buf) (omega (arith, length-drop phys buf))
        ∙ ap (λ l. drop phys buf ++ l)
            (take_at (n - length (drop phys buf)) (n - k) (take phys buf)
                (omega (arith, length-drop phys buf))
              ∙ second)

    across : (f : ℕ) → k < n → n ≤ f → read_loop f buf size phys n ≡ take n (round_from phys buf)
    across zero m e = absurd (omega arith)
    across (suc f) m e =
        read_round f buf size phys n k (omega arith) (omega arith)
        ∙ rw (first, wraps, target m)
            (ap (λ l. drop phys buf ++ l)
              (read_straight f buf size 0 (n - k) (omega arith) (omega arith)))

-- Turning past `p` and `q1` is turning past `q1` once `p` has been turned past.
turn :
    (p q1 q2 : List ℕ) (n o : ℕ)
    → length q1 ≡ o
    → length p + o ≡ n
    → round_from n (p ++ (q1 ++ q2)) ≡ round_from o ((q1 ++ q2) ++ p)
turn p q1 q2 n o eo en =
    rw (← append_assoc p q1 q2) (rotated_split n (p ++ q1) q2 (omega (arith, length-append p q1)))
    ∙ (sym (append_assoc q2 p q1)
        ∙ sym (rw (append_assoc q1 q2 p) (rotated_split o q1 (q2 ++ p) eo)))

turn_at :
    (p q : List ℕ) (o : ℕ)
    → o ≤ length q
    → round_from (length p + o) (p ++ q) ≡ round_from o (q ++ p)
turn_at p q o h =
    rw (take-append-drop o q) at
      (turn p (take o q) (drop o q) (length p + o) o (omega (arith, length-take o q)) refl)

-- A turn begun `o` further on.
pub round_from-add :
    (h o size : ℕ) (buf : List ℕ)
    → length buf ≡ size
    → h < size
    → o < size
    → round_from ((h + o) % size) buf ≡ round_from o (round_from h buf)
round_from-add h o size buf len lt lo = elim (dec_lt (h + o) size) [
  | yes near ↦ rw (mod-eq_of_lt near) (inside (omega (arith, length-drop h buf)))
  | no far ↦
      rw (ap (λ t. t % size) (apart (omega arith)), add-mod_left, mod-eq_of_lt (back (omega arith)))
        (beyond (h + o - size) (apart (omega arith)))
]
  where
    apart : size ≤ h + o → h + o ≡ size + (h + o - size)
    apart far = omega arith

    back : size ≤ h + o → h + o - size < size
    back far = omega arith

    at_head : length (take h buf) ≡ h
    at_head = omega (arith, length-take h buf)

    rest : length (drop h buf) ≡ size - h
    rest = omega (arith, length-drop h buf)

    inside : o ≤ length (drop h buf) → round_from (h + o) buf ≡ round_from o (round_from h buf)
    inside near = rw (at_head, take-append-drop h buf) at (turn_at (take h buf) (drop h buf) o near)

    beyond : (j : ℕ) → h + o ≡ size + j → round_from j buf ≡ round_from o (round_from h buf)
    beyond j e = sym (
        rw (shift, take-append-drop h buf) at
          (turn_at (drop h buf) (take h buf) j (omega (arith, at_head))))
      where
        shift : length (drop h buf) + j ≡ o
        shift = omega (arith, rest)
