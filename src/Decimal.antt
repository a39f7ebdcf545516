-- ===== src/Decimal.antt =====
-- The numbers of `format!`: decimal and octal digits.
use Prim.Native.Nat.{◌/◌}
use mathlib.Core.List.{reverse, reverse-reverse}
use term_bridge.Prelude.{
  ℕ, zero, suc, ◌+◌, ◌-◌, ◌*◌, ◌%◌, ◌^◌, ◌<◌, ◌≡◌, sym, ap, ◌∙◌, List, [], ◌∷◌, map, ltb,
  Bool-cases, inl, inr, if◌then◌else◌, arith,
}
use term_bridge.Text.{Text}

-- The digits of a number, the last one first, at most `fuel`: 20 are enough for a u64 in base 10,
-- and 11 for a u32 in base 8.
pub digits : ℕ → ℕ → ℕ → List ℕ
digits zero base n = []
digits (suc fuel) base n =
    let rest = digits fuel base (n / base) in if ltb n base then n ∷ [] else (n % base) ∷ rest

abbrev pub digit_char : ℕ → ℕ
digit_char d = b'0' + d

-- `{n}` of a u64
unfoldable pub decimal : ℕ → Text
unfolding digits
decimal n = reverse (map digit_char (digits 20 10 n))

-- `{n:o}` of a u32
unfoldable pub octal : ℕ → Text
unfolding digits
octal n = reverse (map digit_char (digits 11 8 n))

value : List ℕ → ℕ
value [] = 0
value (c ∷ s) = (c - b'0') + 10 * value s

value-digits : (fuel n : ℕ) → n < 10 ^ fuel → value (map digit_char (digits fuel 10 n)) ≡ n
unfolding value digits
value-digits zero n h = omega arith
value-digits (suc fuel) n h = elim (Bool-cases (ltb n 10)) [
  | inl small ↦ rw small (omega arith)
  | inr large ↦ rw large (omega (arith, value-digits fuel (n / 10) (omega arith)))
]

-- Two numbers of at most 20 digits with the same decimal text are the same.
pub decimal_inj : (m n : ℕ) → m < 10 ^ 20 → n < 10 ^ 20 → decimal m ≡ decimal n → m ≡ n
unfolding decimal
decimal_inj m n hm hn e =
    let same : map digit_char (digits 20 10 m) ≡ map digit_char (digits 20 10 n) =
      sym (reverse-reverse (map digit_char (digits 20 10 m)))
      ∙ (ap reverse e ∙ reverse-reverse (map digit_char (digits 20 10 n))) in
    sym (value-digits 20 m hm) ∙ (ap value same ∙ value-digits 20 n hn)
