-- ===== src/Ansi/Pages.antt =====
-- Stripping page by page: what one page holds back, and the whole stream.
use term_bridge.Prelude.{
  ℕ, zero, suc, ◌≤◌, ◌≡◌, ◌≢◌, refl, sym, ap, ◌∙◌, Bool, false, inl, inr, Option, none, some, List,
  [], ◌∷◌, ◌++◌, length, take, drop, arith, Bool-cases, Option-cases, ◌==◌, ==_iff, append_assoc,
  take-append-drop, take-add, drop-drop, length-drop,
}
use term_bridge.Ansi.{esc, map_suc, add_some, sequence_end, trailing_loop, strip_control_sequences}
use term_bridge.Ansi.Rest.{strip-text, strip-nil}
use term_bridge.Ansi.Strings.{HeadFits}
use term_bridge.Ansi.Sequences.{sequence_skip, sequence_end_bounds}

-- The part of a page before its incomplete sequence, and that sequence.
abbrev pub settled : Option ℕ → List ℕ → List ℕ
settled none xs = xs
settled (some s) xs = take s xs

abbrev pub held : Option ℕ → List ℕ → List ℕ
held none xs = []
held (some s) xs = drop s xs

abbrev pub ends_esc : List ℕ → Bool
ends_esc [] = false
ends_esc (b ∷ []) = b == esc
ends_esc (b ∷ (c ∷ rest)) = ends_esc (c ∷ rest)

ends_esc-tail : (b : ℕ) (xs : List ℕ) → ends_esc (b ∷ xs) ≡ false → ends_esc xs ≡ false
ends_esc-tail b [] h = refl
ends_esc-tail b (c ∷ xs) h = h

ends_esc-append : (xs ys : List ℕ) → ends_esc (xs ++ ys) ≡ false → ends_esc ys ≡ false
ends_esc-append [] ys h = h
ends_esc-append (x ∷ xs) ys h = ends_esc-append xs ys (ends_esc-tail x (xs ++ ys) h)

HeadFits-append : (xs ext : List ℕ) → HeadFits (xs ++ ext) xs
HeadFits-append [] [] = tt
HeadFits-append [] (z ∷ ext) = tt
HeadFits-append (x ∷ xs) ext = refl

HeadFits-settled : (o : Option ℕ) (xs : List ℕ) → HeadFits (settled o xs) xs
HeadFits-settled none [] = tt
HeadFits-settled none (x ∷ xs) = refl
HeadFits-settled (some zero) xs = tt
HeadFits-settled (some (suc s)) [] = tt
HeadFits-settled (some (suc s)) (x ∷ xs) = refl

settled-map_suc :
    (o : Option ℕ) (b : ℕ) (xs : List ℕ) → settled (map_suc o) (b ∷ xs) ≡ b ∷ settled o xs
settled-map_suc none b xs = refl
settled-map_suc (some s) b xs = refl

held-map_suc : (o : Option ℕ) (b : ℕ) (xs : List ℕ) → held (map_suc o) (b ∷ xs) ≡ held o xs
held-map_suc none b xs = refl
held-map_suc (some s) b xs = refl

settled-add_some :
    (o : Option ℕ) (e : ℕ) (xs : List ℕ)
    → settled (add_some e o) xs ≡ take e xs ++ settled o (drop e xs)
settled-add_some none e xs = sym (take-append-drop e xs)
settled-add_some (some s) e xs = take-add e s xs

held-add_some : (o : Option ℕ) (e : ℕ) (xs : List ℕ) → held (add_some e o) xs ≡ held o (drop e xs)
held-add_some none e xs = refl
held-add_some (some s) e xs = sym (drop-drop s e xs)

-- What stripping the whole input owes to what the cut leaves.
abbrev Resumes : Option ℕ → List ℕ → List ℕ → Type 0
Resumes o xs ext =
    strip_control_sequences (xs ++ ext)
    ≡ strip_control_sequences (settled o xs) ++ strip_control_sequences (held o xs ++ ext)

lone_goes_on :
    (bytes ext : List ℕ) (e : ℕ)
    → sequence_end bytes ≡ some e
    → e ≡ 1
    → drop e (esc ∷ bytes) ++ ext ≢ []
lone_goes_on [] ext e h one nil = unfold sequence_end in cc
lone_goes_on (b ∷ bytes) ext e h one nil = cc (rw one at nil)

at_sequence :
    (bytes ext : List ℕ) (e : ℕ) (o : Option ℕ)
    → sequence_end bytes ≡ some e
    → ends_esc (settled (add_some e o) (esc ∷ bytes)) ≡ false
    → Resumes o (drop e (esc ∷ bytes)) ext
    → Resumes (add_some e o) (esc ∷ bytes) ext
at_sequence bytes ext e o h ne ih =
    rw (settled-add_some o e (esc ∷ bytes), held-add_some o e (esc ∷ bytes))
      (whole ∙ (ih ∙ ap (λ l. l ++ strip_control_sequences (held o rest ++ ext)) (sym part)))
  where
    rest : List ℕ
    rest = drop e (esc ∷ bytes)

    head : List ℕ
    head = take e (esc ∷ bytes)

    whole : strip_control_sequences ((esc ∷ bytes) ++ ext) ≡ strip_control_sequences (rest ++ ext)
    whole =
        ap strip_control_sequences
          (ap (λ l. l ++ ext) (sym (take-append-drop e (esc ∷ bytes))) ∙ append_assoc head rest ext)
        ∙ sequence_skip bytes (rest ++ ext) e h (HeadFits-append rest ext)
            (lone_goes_on bytes ext e h)

    cut_short : e ≡ 1 → settled o rest ≢ []
    cut_short one nil = cc (rw (settled-add_some o e (esc ∷ bytes), nil, one) at ne)

    part :
        strip_control_sequences (head ++ settled o rest) ≡ strip_control_sequences (settled o rest)
    part = sequence_skip bytes (settled o rest) e h (HeadFits-settled o rest) cut_short

-- The three ways of a round of the loop.
module _ (f : ℕ) (xs : List ℕ) where
  pub round_text :
      (b : ℕ) → (b == esc) ≡ false → trailing_loop (suc f) (b ∷ xs) ≡ map_suc (trailing_loop f xs)
  unfolding trailing_loop
  round_text b h = rw h refl

  round_open : sequence_end xs ≡ none → trailing_loop (suc f) (esc ∷ xs) ≡ some 0
  unfolding trailing_loop
  round_open h = rw h refl

  round_closed :
      (e : ℕ)
      → sequence_end xs ≡ some e
      → trailing_loop (suc f) (esc ∷ xs) ≡ add_some e (trailing_loop f (drop e (esc ∷ xs)))
  unfolding trailing_loop
  round_closed e h = rw h refl

at_text :
    (b : ℕ) (xs ext : List ℕ) (o : Option ℕ)
    → (b == esc) ≡ false
    → Resumes o xs ext
    → Resumes (map_suc o) (b ∷ xs) ext
at_text b xs ext o h ih =
    rw
      (
        settled-map_suc o b xs,
        held-map_suc o b xs,
        strip-text b (xs ++ ext) h,
        strip-text b (settled o xs) h,
      )
      (ap (λ l. b ∷ l) ih)

pub trailing_loop-Resumes :
    (f : ℕ) (xs ext : List ℕ)
    → length xs ≤ f
    → ends_esc (settled (trailing_loop f xs) xs) ≡ false
    → Resumes (trailing_loop f xs) xs ext
trailing_loop-Resumes zero [] ext l ne = unfold trailing_loop in rw strip-nil refl
trailing_loop-Resumes zero (b ∷ xs) ext l ne = absurd (omega arith)
trailing_loop-Resumes (suc f) [] ext l ne = unfold trailing_loop in rw strip-nil refl
trailing_loop-Resumes (suc f) (b ∷ xs) ext l ne = elim (Bool-cases (b == esc)) [
  | inr text ↦ rw (round_text f xs b text) (
      at_text b xs ext (trailing_loop f xs) text (
        trailing_loop-Resumes f xs ext (omega arith) (
          ends_esc-tail b (settled (trailing_loop f xs) xs)
            (rw (round_text f xs b text, settled-map_suc) at ne))))
  | inl is_esc ↦
      let same = (==_iff b esc).0 is_esc in
      rw same (elim (Option-cases (sequence_end xs)) [
        | inl open_end ↦ rw (round_open f xs open_end) (rw strip-nil refl)
        | inr (e, ended) ↦ rw (round_closed f xs e ended) (
            at_sequence xs ext e (trailing_loop f (drop e (esc ∷ xs))) ended
              (rw (same, round_closed f xs e ended) at ne)
              (trailing_loop-Resumes f (drop e (esc ∷ xs)) ext
                (omega (arith, length-drop e (esc ∷ xs), sequence_end_bounds xs e ended))
                (ends_esc-append (take e (esc ∷ xs))
                  (settled (trailing_loop f (drop e (esc ∷ xs))) (drop e (esc ∷ xs)))
                  (rw (same, round_closed f xs e ended, settled-add_some) at ne))))
      ])
]
