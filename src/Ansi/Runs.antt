-- ===== src/Ansi/Runs.antt =====
-- The scans of a sequence read no byte behind its end.
use term_bridge.Prelude.{
  ℕ, zero, suc, ◌+◌, ◌≤◌, ◌<◌, ◌≡◌, refl, ap, ◌∙◌, Bool, true, inl, inr, some, List, [], ◌∷◌, ◌++◌,
  length, get_elem?, take, drop, arith, Bool-cases, Option-cases, length-drop, length-take,
  drop-append_le, drop-take,
}
use term_bridge.Ansi.{
  run_length, holds_at, csi_body, consume_csi, is_param, is_intermediate, is_final,
}

pub run_length-keep :
    (test : ℕ → Bool) (m : ℕ) (xs ext : List ℕ)
    → run_length test xs < m
    → run_length test xs < length xs
    → run_length test (take m xs ++ ext) ≡ run_length test xs
unfolding run_length
run_length-keep test m [] ext h l = absurd (omega arith)
run_length-keep test zero (x ∷ xs) ext h l = absurd (omega arith)
run_length-keep test (suc m) (x ∷ xs) ext h l = elim (Bool-cases (test x)) [
  | inl t ↦ rw t (ap suc (run_length-keep test m xs ext (less t) (inside t)))
  | inr f ↦ rw f refl
]
  where
    less : test x ≡ true → run_length test xs < m
    less t = let k = rw t at h in omega arith

    inside : test x ≡ true → run_length test xs < length xs
    inside t = let k = rw t at l in omega arith

pub run_length-le : (test : ℕ → Bool) (xs : List ℕ) → run_length test xs ≤ length xs
unfolding run_length
run_length-le test [] = omega arith
run_length-le test (x ∷ xs) = elim (Bool-cases (test x)) [
  | inl t ↦ rw t (omega (arith, run_length-le test xs))
  | inr f ↦ rw f (omega arith)
]

pub get_elem?-keep :
    (i m : ℕ) (xs ext : List ℕ)
    → i < m
    → i < length xs
    → get_elem? (take m xs ++ ext) i ≡ get_elem? xs i
get_elem?-keep i m [] ext h l = absurd (omega arith)
get_elem?-keep i zero (x ∷ xs) ext h l = absurd (omega arith)
get_elem?-keep zero (suc m) (x ∷ xs) ext h l = refl
get_elem?-keep (suc i) (suc m) (x ∷ xs) ext h l =
    get_elem?-keep i m xs ext (omega arith) (omega arith)

pub get_elem?-lt : (xs : List ℕ) (i : ℕ) {t : ℕ} → get_elem? xs i ≡ some t → i < length xs
get_elem?-lt [] i h = cc
get_elem?-lt (x ∷ xs) zero h = omega arith
get_elem?-lt (x ∷ xs) (suc i) h = omega (arith, get_elem?-lt xs i h)

-- A cut list goes on with what follows the cut.
pub drop-take-append : (n : ℕ) (xs ext : List ℕ) → n ≤ length xs → drop n (take n xs ++ ext) ≡ ext
drop-take-append zero xs ext h = refl
drop-take-append (suc n) [] ext h = absurd (omega arith)
drop-take-append (suc n) (x ∷ xs) ext h = drop-take-append n xs ext (omega arith)

holds_at-lt :
    (test : ℕ → Bool) (xs : List ℕ) (i : ℕ) → holds_at test (get_elem? xs i) ≡ true → i < length xs
holds_at-lt test xs i h = elim (Option-cases (get_elem? xs i)) [
  | inl e ↦ cc (ap (holds_at test) e, h)
  | inr (t, e) ↦ get_elem?-lt xs i e
]

csi_body-keep :
    (rest ext : List ℕ)
    → csi_body rest < length rest
    → csi_body (take (suc (csi_body rest)) rest ++ ext) ≡ csi_body rest
csi_body-keep rest ext l = rw (same_i, after_i, same_j) refl
  where
    i : ℕ
    i = run_length is_param rest

    j : ℕ
    j = run_length is_intermediate (drop i rest)

    same_i : run_length is_param (take (suc (i + j)) rest ++ ext) ≡ i
    same_i = run_length-keep is_param (suc (i + j)) rest ext (omega arith) (omega arith)

    after_i : drop i (take (suc (i + j)) rest ++ ext) ≡ take (suc j) (drop i rest) ++ ext
    after_i =
        drop-append_le i (take (suc (i + j)) rest) ext
          (omega (arith, length-take (suc (i + j)) rest))
        ∙ ap (λ l. l ++ ext)
            (ap (λ k. drop i (take k rest)) (let e : suc (i + j) ≡ i + suc j = omega arith in e)
              ∙ drop-take i (suc j) rest)

    same_j : run_length is_intermediate (take (suc j) (drop i rest) ++ ext) ≡ j
    same_j =
        run_length-keep is_intermediate (suc j) (drop i rest) ext (omega arith)
          (omega (arith, length-drop i rest))

-- A complete CSI sequence is found whatever follows it.
pub consume_csi-keep :
    (rest ext : List ℕ) (n : ℕ)
    → consume_csi rest ≡ some n
    → (consume_csi (take n rest ++ ext) ≡ some n) × (n ≤ length rest)
unfolding consume_csi
consume_csi-keep rest ext n h = elim (Bool-cases (holds_at is_final (get_elem? rest body))) [
  | inr f ↦ cc (rw f at h)
  | inl t ↦ found t (cc (rw t at h))
]
  where
    body : ℕ
    body = csi_body rest

    found :
        holds_at is_final (get_elem? rest body) ≡ true
        → suc body ≡ n
        → (consume_csi (take n rest ++ ext) ≡ some n) × (n ≤ length rest)
    found t e = (
      rw (← e, csi_body-keep rest ext l, get_elem?-keep body (suc body) rest ext (omega arith) l, t)
          refl,
      omega (arith, l),
    )
      where
        l : body < length rest
        l = holds_at-lt is_final rest body t
