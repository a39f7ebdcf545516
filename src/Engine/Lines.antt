-- ===== src/Engine/Lines.antt =====
-- src/domain/output.rs: `tail`, and the helpers that match, cut lines and find a prompt.
pub mod Search
use term_bridge.Prelude.{
  ℕ, suc, ◌+◌, ◌-◌, Bool, true, false, ◌&&◌, ◌||◌, Option, none, some, List, [], ◌∷◌, ◌++◌, length,
  take, drop, ltb, ◌==◌, if◌then◌else◌,
}
use term_bridge.Ring.{BufferInner, read_since_inner, newline}
use term_bridge.Utf8.{is_utf8}

abbrev pub eq_bytes : List ℕ → List ℕ → Bool
eq_bytes [] [] = true
eq_bytes (a ∷ as') (b ∷ bs) = a == b && eq_bytes as' bs
eq_bytes _ _ = false

abbrev cons_line : ℕ → List (List ℕ) → List (List ℕ)
cons_line b [] = (b ∷ []) ∷ []
cons_line b (line ∷ lines) = (b ∷ line) ∷ lines

-- data.split(|&b| b == b'\n')
unfoldable pub split_lines : List ℕ → List (List ℕ)
split_lines [] = [] ∷ []
split_lines (b ∷ bs) =
    let lines = split_lines bs in if b == newline then [] ∷ lines else cons_line b lines

abbrev last_is_empty : List (List ℕ) → Bool
last_is_empty [] = false
last_is_empty ([] ∷ []) = true
last_is_empty ((b ∷ bs) ∷ []) = false
last_is_empty (line ∷ (next ∷ lines)) = last_is_empty (next ∷ lines)

-- The loop over the chosen lines: `i` is the index of the line.
unfoldable pub push_lines : ℕ → List ℕ → List (List ℕ) → List ℕ
push_lines i out [] = out
push_lines i out (line ∷ lines) =
    push_lines (suc i) ((if ltb 0 i then out ++ (newline ∷ []) else out) ++ line) lines

unfoldable pub tail_of : List ℕ → ℕ → List ℕ
unfolding split_lines push_lines
tail_of full n_lines =
    let lines = split_lines full in
    let total = length lines in
    let effective = if last_is_empty lines then total - 1 else total in
    let start = effective - n_lines in
    if effective == 0 then [] else push_lines 0 [] (drop start (take effective lines))

unfoldable pub tail : BufferInner → ℕ → List ℕ
unfolding tail_of
tail g n_lines = if n_lines == 0 then [] else tail_of (read_since_inner g 0 none).0 n_lines

pub record Match : Type 0 where
  pub start : ℕ
  pub end : ℕ

abbrev shift_some : Option ℕ → Option ℕ
shift_some none = none
shift_some (some n) = some (suc n)

abbrev starts_with : List ℕ → List ℕ → Bool
starts_with bytes [] = true
starts_with [] (p ∷ ps) = false
starts_with (b ∷ bytes) (p ∷ ps) = b == p && starts_with bytes ps

-- data.windows(sub.len()).position(|w| w == sub), for a `sub` that is not empty
unfoldable pub window_position : List ℕ → List ℕ → Option ℕ
window_position [] sub = none
window_position (b ∷ bytes) sub =
    let later = window_position bytes sub in
    if starts_with (b ∷ bytes) sub then some 0 else shift_some later

unfoldable pub find_subslice : List ℕ → List ℕ → Option ℕ
unfolding window_position
find_subslice bytes [] = some 0
find_subslice bytes (p ∷ ps) = window_position bytes (p ∷ ps)

abbrev plain_match : List ℕ → List ℕ → Option Match
plain_match bytes plain = elim (find_subslice bytes plain) [
  | none ↦ none
  | some pos ↦ some (record { start = pos; end = pos + length plain })
]

module _ {R : Type 0} (find : R → List ℕ → Option Match) where
  unfoldable pub match_pattern : List ℕ → Option R → List ℕ → Option Match
  match_pattern bytes none plain = plain_match bytes plain
  match_pattern bytes (some re) plain =
      if is_utf8 bytes
      then (elim (find re bytes) [ some m ↦ some m | none ↦ plain_match bytes plain ])
      else plain_match bytes plain

-- data.iter().position(|&b| b == b'\n')
abbrev position_newline : List ℕ → Option ℕ
position_newline [] = none
position_newline (b ∷ bs) =
    let later = position_newline bs in if b == newline then some 0 else shift_some later

-- data.iter().rposition(|&b| b == b'\n')
abbrev rposition_newline : List ℕ → Option ℕ
rposition_newline [] = none
rposition_newline (b ∷ bs) = elim (rposition_newline bs) [
  | some p ↦ some (suc p)
  | none ↦ if b == newline then some 0 else none
]

abbrev line_start : List ℕ → Match → ℕ
line_start bytes m = elim (rposition_newline (take m.start bytes)) [ none ↦ 0 | some p ↦ suc p ]

-- The index behind the line feed that ends the matched line.
abbrev line_end : List ℕ → Match → ℕ
line_end bytes m = elim (position_newline (drop m.end bytes)) [
  | none ↦ length bytes
  | some p ↦ m.end + p + 1
]

abbrev drop_last : List (List ℕ) → List (List ℕ)
drop_last [] = []
drop_last (line ∷ []) = []
drop_last (line ∷ (next ∷ lines)) = line ∷ drop_last (next ∷ lines)

abbrev ends_newline : List ℕ → Bool
ends_newline [] = false
ends_newline (b ∷ []) = b == newline
ends_newline (b ∷ (c ∷ bs)) = ends_newline (c ∷ bs)

abbrev strip_newline : List ℕ → List ℕ
strip_newline [] = []
strip_newline (b ∷ []) = if b == newline then [] else b ∷ []
strip_newline (b ∷ (c ∷ bs)) = b ∷ strip_newline (c ∷ bs)

abbrev lines_before : List ℕ → List (List ℕ)
lines_before [] = []
lines_before (b ∷ bs) = drop_last (split_lines (b ∷ bs))

abbrev lines_after : List ℕ → List (List ℕ)
lines_after [] = []
lines_after (b ∷ bs) =
    if ends_newline (b ∷ bs) then drop_last (split_lines (b ∷ bs)) else split_lines (b ∷ bs)

-- `push_line`: a line feed goes before every line but the first that leaves something.
abbrev push_line : List ℕ → List ℕ → List ℕ
push_line [] line = line
push_line (b ∷ out) line = ((b ∷ out) ++ (newline ∷ [])) ++ line

abbrev push_each : List ℕ → List (List ℕ) → List ℕ
push_each out [] = out
push_each out (line ∷ lines) = push_each (push_line out line) lines

unfoldable pub extract_context : List ℕ → Match → ℕ → List ℕ
unfolding split_lines
extract_context bytes m context_lines =
    let first = line_start bytes m in
    let last = line_end bytes m in
    let before = lines_before (take first bytes) in
    let shown = drop (length before - context_lines) before in
    let line = strip_newline (drop first (take last bytes)) in
    let after = take context_lines (lines_after (drop last bytes)) in
    if context_lines == 0
    then drop first (take last bytes)
    else push_each (push_line (push_each [] shown) line) after

unfoldable pub has_prompt_suffix : List ℕ → Bool
has_prompt_suffix bytes =
    let tail = drop (length bytes - 2) bytes in
    if ltb 1 (length bytes)
    then eq_bytes tail (b'$' ∷ (b' ' ∷ []))
      || (eq_bytes tail (b'#' ∷ (b' ' ∷ [])) || eq_bytes tail (b'>' ∷ (b' ' ∷ [])))
    else false
