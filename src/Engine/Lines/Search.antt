-- ===== src/Engine/Lines/Search.antt =====
-- The search for a plain pattern.
use term_bridge.Prelude.{
  ℕ, zero, suc, ◌≤◌, ◌≡◌, refl, sym, ap, ◌∙◌, true, Option, none, some, some_inj, List, [], ◌∷◌,
  ◌++◌, length, take, drop, arith, Bool-cases, ◌==◌, ==_iff, inl, inr,
}
use term_bridge.Engine.Lines.{shift_some, starts_with, window_position, find_subslice}

starts_with-split :
    (bytes sub : List ℕ) → starts_with bytes sub ≡ true → bytes ≡ sub ++ drop (length sub) bytes
starts_with-split bytes [] h = refl
starts_with-split [] (p ∷ ps) h = cc
starts_with-split (b ∷ bytes) (p ∷ ps) h = elim (Bool-cases (b == p)) [
  | inl e ↦
      ap (λ c. c ∷ bytes) ((==_iff b p).0 e)
      ∙ ap (λ l. p ∷ l) (starts_with-split bytes ps (rw e at h))
  | inr n ↦ cc (rw n at h)
]

starts_with-append : (sub post : List ℕ) → starts_with (sub ++ post) sub ≡ true
starts_with-append [] post = refl
starts_with-append (p ∷ ps) post = rw ((==_iff p p).1 refl) (starts_with-append ps post)

-- The bytes before the place, the pattern, and the bytes behind it.
abbrev pub around : List ℕ → List ℕ → ℕ → List ℕ
around bytes sub pos = take pos bytes ++ (sub ++ drop (length sub) (drop pos bytes))

window_position-split :
    (bytes sub : List ℕ) (pos : ℕ)
    → window_position bytes sub ≡ some pos
    → bytes ≡ around bytes sub pos
unfolding window_position
window_position-split [] sub pos h = cc
window_position-split (b ∷ bytes) sub pos h = elim (Bool-cases (starts_with (b ∷ bytes) sub)) [
  | inl t ↦ rw (sym (some_inj (rw t at h))) (starts_with-split (b ∷ bytes) sub t)
  | inr f ↦
      later (λ q e. window_position-split bytes sub q e) pos (window_position bytes sub) refl
        (rw f at h)
]
  where
    later :
        ((q : ℕ) → window_position bytes sub ≡ some q → bytes ≡ around bytes sub q)
        → (pos : ℕ) (o : Option ℕ) → window_position bytes sub ≡ o
        → shift_some o ≡ some pos
        → b ∷ bytes ≡ around (b ∷ bytes) sub pos
    later ih pos none e q = cc
    later ih zero (some n) e q = absurd (omega (arith, some_inj q))
    later ih (suc pos) (some n) e q =
        ap (λ l. b ∷ l) (ih pos (e ∙ ap some (omega (arith, some_inj q))))

window_position-finds :
    (pre sub post : List ℕ) (p : ℕ) (ps : List ℕ)
    → sub ≡ p ∷ ps
    → (pos : ℕ) × (window_position (pre ++ (sub ++ post)) sub ≡ some pos) × (pos ≤ length pre)
unfolding window_position
window_position-finds [] sub post p ps e =
    (0, rw e (rw (starts_with-append (p ∷ ps) post) refl), omega arith)
window_position-finds (b ∷ pre) sub post p ps e =
    elim (Bool-cases (starts_with (b ∷ (pre ++ (sub ++ post))) sub)) [
      | inl t ↦ (0, rw t refl, omega arith)
      | inr f ↦
          let (pos, found, le) = window_position-finds pre sub post p ps e in
          (suc pos, rw f (rw found refl), omega arith)
    ]

-- Where a plain pattern that is not empty occurs in the data, the search finds a place, no later
-- than that of the occurrence, and the pattern stands at the place that it finds.
pub search_first :
    (pre post : List ℕ) (p : ℕ) (ps : List ℕ)
    → let bytes = pre ++ ((p ∷ ps) ++ post) in
      (pos : ℕ) × (find_subslice bytes (p ∷ ps) ≡ some pos)
      × (pos ≤ length pre)
      × (bytes ≡ around bytes (p ∷ ps) pos)
unfolding find_subslice
search_first pre post p ps =
    let (pos, found, le) = window_position-finds pre (p ∷ ps) post p ps refl in
    (pos, found, le, window_position-split (pre ++ ((p ∷ ps) ++ post)) (p ∷ ps) pos found)
