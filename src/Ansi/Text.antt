-- ===== src/Ansi/Text.antt =====
-- What the stripped text is, whatever the input: its length, its bytes, and what malformed
-- sequences do to it.
use term_bridge.Prelude.{
  ℕ, zero, suc, ◌≤◌, ◌<◌, ◌≡◌, ◌≢◌, refl, ap, ◌∙◌, none, List, [], ◌∷◌, ◌++◌, length, arith,
  append-nil, ◌==◌, ◌⊎◌, inl, inr, Bool-cases,
}
use term_bridge.Ansi.{
  esc, kind, behind, strip_control_sequences, strip_loop, run_length, consume_csi,
}
use term_bridge.Ansi.Rest.{strip-escape, strip-text, strip-nil, length-behind}

strip_loop-le : (f : ℕ) (xs : List ℕ) → length (strip_loop f xs) ≤ length xs
unfolding strip_loop
strip_loop-le zero xs = omega arith
strip_loop-le (suc f) [] = omega arith
strip_loop-le (suc f) (b ∷ []) = omega arith
strip_loop-le (suc f) (b ∷ (next ∷ rest)) = elim (Bool-cases (b == esc)) [
  | inl e ↦ rw e (
      omega (
        arith,
        strip_loop-le f (behind (kind next) next rest),
        length-behind (kind next) next rest,
      ))
  | inr t ↦ rw t (omega (arith, strip_loop-le f (next ∷ rest)))
]

-- No ESC, but perhaps the last byte.
abbrev pub EscOnlyLast : List ℕ → Type 0
EscOnlyLast [] = Unit
EscOnlyLast (b ∷ []) = Unit
EscOnlyLast (b ∷ (c ∷ rest)) = (b ≢ esc) × EscOnlyLast (c ∷ rest)

EscOnlyLast-cons : (b : ℕ) (xs : List ℕ) → b ≢ esc → EscOnlyLast xs → EscOnlyLast (b ∷ xs)
EscOnlyLast-cons b [] h e = tt
EscOnlyLast-cons b (c ∷ xs) h e = (h, e)

strip_loop-EscOnlyLast : (f : ℕ) (xs : List ℕ) → EscOnlyLast (strip_loop f xs)
unfolding strip_loop
strip_loop-EscOnlyLast zero xs = tt
strip_loop-EscOnlyLast (suc f) [] = tt
strip_loop-EscOnlyLast (suc f) (b ∷ []) = tt
strip_loop-EscOnlyLast (suc f) (b ∷ (next ∷ rest)) = elim (Bool-cases (b == esc)) [
  | inl e ↦ rw e (strip_loop-EscOnlyLast f (behind (kind next) next rest))
  | inr t ↦ rw t (
      EscOnlyLast-cons b (strip_loop f (next ∷ rest)) (ground arith)
        (strip_loop-EscOnlyLast f (next ∷ rest)))
]

-- The stripped text is no longer than the input, and has an ESC at most as its last byte.
pub strip_bounds :
    (xs : List ℕ)
    → (length (strip_control_sequences xs) ≤ length xs) × EscOnlyLast (strip_control_sequences xs)
unfolding strip_control_sequences
strip_bounds xs = (strip_loop-le (length xs) xs, strip_loop-EscOnlyLast (length xs) xs)

abbrev pub NoEsc : List ℕ → Type 0
NoEsc [] = Unit
NoEsc (b ∷ rest) = (b ≢ esc) × NoEsc rest

-- Text before the first ESC is kept as it is, and stripping goes on behind it as on an input of
-- its own.
pub strip-plain :
    (text rest : List ℕ)
    → NoEsc text
    → strip_control_sequences (text ++ rest) ≡ text ++ strip_control_sequences rest
strip-plain [] rest h = refl
strip-plain (b ∷ text) rest h =
    rw (strip-text b (text ++ rest) (ground (arith, h.0)))
      (ap (λ l. b ∷ l) (strip-plain text rest h.1))

-- A byte that may stand nowhere in a CSI sequence.
abbrev pub BreaksCsi : ℕ → Type 0
BreaksCsi c = (c < 0x20) ⊎ (0x7E < c)

lost : (c : ℕ) (rest : List ℕ) → BreaksCsi c → consume_csi (c ∷ rest) ≡ none
unfolding consume_csi run_length
lost c rest m = ground arith

-- A CSI sequence broken off at its first byte by a byte below 0x20 or above 0x7E takes the rest
-- of the input with it.
pub malformed_csi_swallows :
    (text : List ℕ) (c : ℕ) (rest : List ℕ)
    → NoEsc text
    → BreaksCsi c
    → strip_control_sequences (text ++ (esc ∷ (b'[' ∷ (c ∷ rest)))) ≡ text
malformed_csi_swallows text c rest h m =
    strip-plain text (esc ∷ (b'[' ∷ (c ∷ rest))) h
    ∙ (ap (λ l. text ++ l) (strip-escape b'[' (c ∷ rest) ∙ rw (lost c rest m) strip-nil)
        ∙ append-nil text)
