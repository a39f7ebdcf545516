-- ===== src/Text.antt =====
-- Texts as lists of code points, and the `str` methods that the policies call.
use Prim.Native.Char.{code}
use Prim.Native.String.{String}
use term_bridge.Prelude.{
  ℕ, ◌-◌, Bool, true, false, ◌&&◌, ◌||◌, List, [], ◌∷◌, ◌++◌, length, drop, leb, ◌==◌,
  if◌then◌else◌,
}

abbrev pub Text : Type 0
Text = List ℕ

-- The code points of a literal.
abbrev pub codes : String → Text
codes String.[] = []
codes (String.◌∷◌ c s) = code c ∷ codes s

abbrev pub slash : ℕ
slash = b'/'

abbrev pub eq_text : Text → Text → Bool
eq_text [] [] = true
eq_text [] (b ∷ bs) = false
eq_text (a ∷ s) [] = false
eq_text (a ∷ s) (b ∷ bs) = a == b && eq_text s bs

abbrev pub starts_with : Text → Text → Bool
starts_with s [] = true
starts_with [] (p ∷ ps) = false
starts_with (b ∷ s) (p ∷ ps) = b == p && starts_with s ps

abbrev pub ends_with : Text → Text → Bool
ends_with s p = leb (length p) (length s) && eq_text (drop (length s - length p) s) p

-- s.contains(p), for a `p` that is not empty
abbrev pub contains : Text → Text → Bool
contains [] p = false
contains (b ∷ s) p = starts_with (b ∷ s) p || contains s p

abbrev pub contains_char : ℕ → Text → Bool
contains_char c [] = false
contains_char c (b ∷ s) = b == c || contains_char c s

abbrev pub any {ℓ} : {A : Type ℓ} → (A → Bool) → List A → Bool
any test [] = false
any test (x ∷ xs) = test x || any test xs

abbrev pub cons_piece : ℕ → List Text → List Text
cons_piece b [] = (b ∷ []) ∷ []
cons_piece b (s ∷ ss) = (b ∷ s) ∷ ss

-- s.split(c)
abbrev pub split : ℕ → Text → List Text
split c [] = [] ∷ []
split c (b ∷ s) = let more = split c s in if b == c then [] ∷ more else cons_piece b more

-- pieces.join("/")
abbrev pub join_slash : List Text → Text
join_slash [] = []
join_slash (s ∷ []) = s
join_slash (s ∷ (t ∷ ss)) = s ++ (slash ∷ join_slash (t ∷ ss))

-- s.trim_end_matches('/')
abbrev cons_unless_slash : ℕ → Text → Text
cons_unless_slash b [] = if b == slash then [] else b ∷ []
cons_unless_slash b (c ∷ s) = b ∷ (c ∷ s)

abbrev pub trim_end_slashes : Text → Text
trim_end_slashes [] = []
trim_end_slashes (b ∷ s) = cons_unless_slash b (trim_end_slashes s)
