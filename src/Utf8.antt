-- ===== src/Utf8.antt =====
-- `str::from_utf8` and `String::from_utf8_lossy` of the standard library: which bytes are UTF-8,
-- and the text that stands for any bytes.
use term_bridge.Text.{Text}
use term_bridge.Prelude.{
  ℕ, ◌+◌, ◌*◌, ◌%◌, Bool, true, false, ◌&&◌, Option, none, some, List, [], ◌∷◌, ◌++◌, leb, ◌==◌,
  if◌then◌else◌,
}

-- The least and the greatest value of a byte.
abbrev Range : Type 0
Range = ℕ × ℕ

abbrev in_range : Range → ℕ → Bool
in_range range b = leb range.0 b && leb b range.1

abbrev continuation : Range
continuation = (0x80, 0xBF)

-- What must follow a first byte; no character begins with the others.
abbrev after_first : ℕ → Option (List Range)
after_first b =
    if leb b 0x7F
    then some []
    else if in_range (0xC2, 0xDF) b
    then some (continuation ∷ [])
    else if b == 0xE0
    then some ((0xA0, 0xBF) ∷ (continuation ∷ []))
    else if b == 0xED
    then some ((0x80, 0x9F) ∷ (continuation ∷ []))
    else if in_range (0xE1, 0xEF) b
    then some (continuation ∷ (continuation ∷ []))
    else if b == 0xF0
    then some ((0x90, 0xBF) ∷ (continuation ∷ (continuation ∷ [])))
    else if in_range (0xF1, 0xF3) b
    then some (continuation ∷ (continuation ∷ (continuation ∷ [])))
    else if b == 0xF4
    then some ((0x80, 0x8F) ∷ (continuation ∷ (continuation ∷ [])))
    else none

-- The bytes first fill the ranges that are open.
abbrev fills : List Range → List ℕ → Bool
fills [] [] = true
fills (range ∷ ranges) [] = false
fills [] (b ∷ bytes) = elim (after_first b) [ none ↦ false | some ranges ↦ fills ranges bytes ]
fills (range ∷ ranges) (b ∷ bytes) = in_range range b && fills ranges bytes

unfoldable pub is_utf8 : List ℕ → Bool
is_utf8 bytes = fills [] bytes

abbrev pub replacement : ℕ
replacement = 0xFFFD

-- The bits of a first byte that belong to the character.
abbrev first_bits : ℕ → ℕ
first_bits b =
    if leb b 0x7F then b else if leb b 0xDF then b % 32 else if leb b 0xEF then b % 16 else b % 8

-- The bits so far and the ranges that are open, or none between two characters.
abbrev State : Type 0
State = Option (ℕ × List Range)

-- What a first byte puts out, and the state behind it.
abbrev begin : ℕ → Text × State
begin b = elim (after_first b) [
  | none ↦ (replacement ∷ [], none)
  | some [] ↦ (b ∷ [], none)
  | some (range ∷ ranges) ↦ ([], some (first_bits b, range ∷ ranges))
]

-- A byte in the range goes on; any other ends the broken character and is a first byte.
abbrev advance : State → ℕ → Text × State
advance none b = begin b
advance (some (bits, [])) b = begin b
advance (some (bits, range ∷ [])) b =
    if in_range range b
    then (let out : Text × State = ((bits * 64 + b % 64) ∷ [], none) in out)
    else (replacement ∷ (begin b).0, (begin b).1)
advance (some (bits, range ∷ (next ∷ ranges))) b =
    if in_range range b
    then (let out : Text × State = ([], some (bits * 64 + b % 64, next ∷ ranges)) in out)
    else (replacement ∷ (begin b).0, (begin b).1)

abbrev decode : State → List ℕ → Text
decode none [] = []
decode (some open_bits) [] = replacement ∷ []
decode state (b ∷ bytes) = (advance state b).0 ++ decode (advance state b).1 bytes

unfoldable pub from_utf8_lossy : List ℕ → Text
from_utf8_lossy bytes = decode none bytes
