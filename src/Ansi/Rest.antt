-- ===== src/Ansi/Rest.antt =====
-- The loop of `strip_control_sequences` by what is left of the input: its equations, free of fuel.
use term_bridge.Prelude.{
  ℕ, zero, suc, ◌≤◌, ◌≡◌, refl, false, inl, inr, Option, none, some, List, [], ◌∷◌, length,
  get_elem?, arith, ◌==◌, Bool-cases, length-drop,
}
use term_bridge.Ansi.{
  Kind, csi, osc, string, other, kind, behind, drop_csi, drop_at_byte, run_length, is_intermediate,
  is_escape_final, esc, strip_loop, strip_control_sequences, consume_csi,
}

length-drop_csi : (o : Option ℕ) (rest : List ℕ) → length (drop_csi o rest) ≤ length rest
length-drop_csi none rest = omega arith
length-drop_csi (some n) rest = omega (arith, length-drop n rest)

length-drop_at_byte :
    (o : Option ℕ) (j : ℕ) (bytes : List ℕ) → length (drop_at_byte o j bytes) ≤ length bytes
length-drop_at_byte none j bytes = omega arith
length-drop_at_byte (some t) j bytes = elim (Bool-cases (is_escape_final t)) [
  | inl f ↦ rw f (omega (arith, length-drop (suc j) bytes))
  | inr f ↦ rw f (omega (arith, length-drop j bytes))
]

pub length-behind :
    (k : Kind) (next : ℕ) (rest : List ℕ) → length (behind k next rest) ≤ suc (length rest)
length-behind csi next rest = omega (arith, length-drop_csi (consume_csi rest) rest)
length-behind osc next rest = omega (arith, length-drop {A = ℕ} _ rest)
length-behind string next rest = omega (arith, length-drop {A = ℕ} _ rest)
length-behind other next rest =
    length-drop_at_byte (get_elem? (next ∷ rest) (run_length is_intermediate (next ∷ rest)))
      (run_length is_intermediate (next ∷ rest)) (next ∷ rest)

-- Any fuel that covers the input gives the same result.
strip_loop_fuel :
    (f g : ℕ) (xs : List ℕ) → length xs ≤ f → length xs ≤ g → strip_loop f xs ≡ strip_loop g xs
unfolding strip_loop
strip_loop_fuel zero zero xs hf hg = refl
strip_loop_fuel zero (suc g) [] hf hg = refl
strip_loop_fuel zero (suc g) (x ∷ xs) hf hg = absurd (omega arith)
strip_loop_fuel (suc f) zero [] hf hg = refl
strip_loop_fuel (suc f) zero (x ∷ xs) hf hg = absurd (omega arith)
strip_loop_fuel (suc f) (suc g) [] hf hg = refl
strip_loop_fuel (suc f) (suc g) (b ∷ []) hf hg = refl
strip_loop_fuel (suc f) (suc g) (b ∷ (next ∷ rest)) hf hg =
    rw
      (
        strip_loop_fuel f g (behind (kind next) next rest)
            (omega (arith, length-behind (kind next) next rest))
            (omega (arith, length-behind (kind next) next rest)),
        strip_loop_fuel f g (next ∷ rest) (omega arith) (omega arith),
      )
      refl

-- A byte of text is kept.
pub strip-text :
    (b : ℕ) (xs : List ℕ)
    → (b == esc) ≡ false
    → strip_control_sequences (b ∷ xs) ≡ b ∷ strip_control_sequences xs
unfolding strip_control_sequences
strip-text b [] h = refl
strip-text b (next ∷ rest) h = rw h refl

pub strip-nil : strip_control_sequences [] ≡ []
unfolding strip_control_sequences
strip-nil = refl

-- A lone ESC at the end is kept.
pub strip-lone : (b : ℕ) → strip_control_sequences (b ∷ []) ≡ b ∷ []
unfolding strip_control_sequences
strip-lone b = refl

-- A sequence is left out.
pub strip-escape :
    (next : ℕ) (rest : List ℕ)
    → strip_control_sequences (esc ∷ (next ∷ rest))
      ≡ strip_control_sequences (behind (kind next) next rest)
unfolding strip_control_sequences
strip-escape next rest =
    strip_loop_fuel (suc (length rest)) (length (behind (kind next) next rest))
      (behind (kind next) next rest) (length-behind (kind next) next rest) (omega arith)
