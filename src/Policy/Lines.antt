-- ===== src/Policy/Lines.antt =====
-- The `str` methods that src/application/policy.rs calls on command lines.
use term_bridge.Prelude.{
  ℕ, Bool, true, false, not, ◌&&◌, ◌||◌, List, [], ◌∷◌, leb, ◌==◌, if◌then◌else◌,
}
use term_bridge.Text.{Text, cons_piece}

abbrev pub line_feed : ℕ
line_feed = 10

abbrev carriage_return : ℕ
carriage_return = 13

-- The characters of Unicode's White_Space.
abbrev pub is_whitespace : ℕ → Bool
is_whitespace c =
    (leb 9 c && leb c 13)
    || (c == 32
        || (c == 0x85
            || (c == 0xA0
                || (c == 0x1680
                    || ((leb 0x2000 c && leb c 0x200A)
                        || (c == 0x2028
                            || (c == 0x2029 || (c == 0x202F || (c == 0x205F || c == 0x3000)))))))))

abbrev trim_start : Text → Text
trim_start [] = []
trim_start (c ∷ s) = let more = trim_start s in if is_whitespace c then more else c ∷ s

abbrev cons_unless_space : ℕ → Text → Text
cons_unless_space c [] = if is_whitespace c then [] else c ∷ []
cons_unless_space c (d ∷ s) = c ∷ (d ∷ s)

abbrev trim_end : Text → Text
trim_end [] = []
trim_end (c ∷ s) = cons_unless_space c (trim_end s)

unfoldable pub trim : Text → Text
trim s = trim_end (trim_start s)

abbrev pub is_empty : Text → Bool
is_empty [] = true
is_empty (c ∷ s) = false

-- The lines with the line feeds that end them.
abbrev split_inclusive : Text → List Text
split_inclusive [] = []
split_inclusive (c ∷ s) =
    let more = split_inclusive s in if c == line_feed then (c ∷ []) ∷ more else cons_piece c more

abbrev strip_line_end : Text → Text
strip_line_end [] = []
strip_line_end (c ∷ []) = if c == line_feed then [] else c ∷ []
strip_line_end (c ∷ (d ∷ s)) =
    let more = strip_line_end (d ∷ s) in
    if c == carriage_return && (d == line_feed && is_empty s) then [] else c ∷ more

abbrev strip_line_ends : List Text → List Text
strip_line_ends [] = []
strip_line_ends (line ∷ rest) = strip_line_end line ∷ strip_line_ends rest

unfoldable pub lines : Text → List Text
lines s = strip_line_ends (split_inclusive s)

abbrev begins_word : Text → Bool
begins_word [] = false
begins_word (c ∷ s) = not (is_whitespace c)

unfoldable pub split_whitespace : Text → List Text
split_whitespace [] = []
split_whitespace (c ∷ s) =
    let more = split_whitespace s in
    if is_whitespace c then more else if begins_word s then cons_piece c more else (c ∷ []) ∷ more
