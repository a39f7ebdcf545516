-- ===== src/Ansi.antt =====
-- src/domain/ansi_strip.rs: the stripping of terminal control sequences, on the bytes of a page
-- and across pages. An index `i` into the input stands here as the rest of the input from `i` on,
-- and an end index is counted from the ESC that begins the sequence.
mod Rest
mod Runs
mod Strings
mod Sequences
pub mod Pages
pub mod Stream
pub mod Text
use term_bridge.Prelude.{
  ℕ, zero, suc, ◌+◌, ◌-◌, ◌*◌, Bool, true, false, not, ◌&&◌, ◌||◌, Option, none, some, List, [],
  ◌∷◌, ◌++◌, length, get_elem?, take, drop, ltb, leb, ◌==◌, if◌then◌else◌,
}

abbrev pub esc : ℕ
esc = 0x1B

abbrev pub bel : ℕ
bel = 7

abbrev pub backslash : ℕ
backslash = 0x5C

abbrev pub max_pending_bytes : ℕ
max_pending_bytes = 8 * 1024

-- (lo..=hi).contains(&b)
abbrev pub within : ℕ → ℕ → ℕ → Bool
within lo hi b = leb lo b && leb b hi

abbrev pub is_param : ℕ → Bool
is_param = within 0x30 0x3F

abbrev pub is_intermediate : ℕ → Bool
is_intermediate = within 0x20 0x2F

abbrev pub is_final : ℕ → Bool
is_final = within 0x40 0x7E

abbrev pub is_escape_final : ℕ → Bool
is_escape_final = within 0x30 0x7E

-- `while i < rest.len() && test(rest[i]) { i += 1 }` from 0.
unfoldable pub run_length : (ℕ → Bool) → List ℕ → ℕ
run_length test [] = 0
run_length test (b ∷ rest) = if test b then suc (run_length test rest) else 0

abbrev pub holds_at : (ℕ → Bool) → Option ℕ → Bool
holds_at test none = false
holds_at test (some b) = test b

abbrev pub csi_body : List ℕ → ℕ
csi_body rest = let i = run_length is_param rest in i + run_length is_intermediate (drop i rest)

unfoldable pub consume_csi : List ℕ → Option ℕ
unfolding run_length
consume_csi rest =
    let i = csi_body rest in if holds_at is_final (get_elem? rest i) then some (suc i) else none

abbrev pub starts_backslash : List ℕ → Bool
starts_backslash [] = false
starts_backslash (b ∷ rest) = b == backslash

-- The tests of one round of the two loops below, in their order.
abbrev pub ends_bel : ℕ → ℕ → Bool
ends_bel terminator b = not (terminator == 0) && b == terminator

abbrev pub ends_st : ℕ → List ℕ → Bool
ends_st b rest = b == esc && starts_backslash rest

abbrev pub ends_lone : ℕ → ℕ → Bool
ends_lone terminator b = b == esc && not (terminator == 0)

unfoldable pub consume_string_terminator : List ℕ → ℕ → ℕ
consume_string_terminator [] terminator = 0
consume_string_terminator (b ∷ rest) terminator =
    let more = consume_string_terminator rest terminator in
    if ends_bel terminator b
    then 1
    else if ends_st b rest
    then 2
    else if ends_lone terminator b
    then 0
    else suc more

abbrev pub map_suc : Option ℕ → Option ℕ
map_suc none = none
map_suc (some n) = some (suc n)

unfoldable pub consume_string_until : List ℕ → ℕ → Option ℕ
consume_string_until [] terminator = none
consume_string_until (b ∷ rest) terminator =
    let more = consume_string_until rest terminator in
    if ends_bel terminator b
    then some 1
    else if ends_st b rest
    then some 2
    else if ends_lone terminator b
    then some 0
    else map_suc more

-- What an ESC and the byte behind it begin.
pub data Kind : Type 0 where
  csi osc string other : Kind

abbrev pub kind : ℕ → Kind
kind b =
    if b == b'['
    then csi
    else if b == b']'
    then osc
    else if b == b'P' || (b == b'_' || (b == b'^' || b == b'X'))
    then string
    else other

abbrev pub drop_csi : Option ℕ → List ℕ → List ℕ
drop_csi (some n) rest = drop n rest
drop_csi none rest = []

-- The branch for the other sequences, on the bytes behind ESC: what follows the byte at `j`.
abbrev pub drop_at_byte : Option ℕ → ℕ → List ℕ → List ℕ
drop_at_byte none j bytes = []
drop_at_byte (some t) j bytes = if is_escape_final t then drop (suc j) bytes else drop j bytes

abbrev pub drop_other : List ℕ → List ℕ
drop_other bytes =
    let j = run_length is_intermediate bytes in drop_at_byte (get_elem? bytes j) j bytes

-- The input that is left behind the sequence `ESC next rest`.
abbrev pub behind : Kind → ℕ → List ℕ → List ℕ
behind csi next rest = drop_csi (consume_csi rest) rest
behind osc next rest = drop (consume_string_terminator rest bel) rest
behind string next rest = drop (consume_string_terminator rest 0) rest
behind other next rest = drop_other (next ∷ rest)

-- The loop of `strip_control_sequences`; each round consumes at least one byte.
pub strip_loop : ℕ → List ℕ → List ℕ
unfolding consume_csi consume_string_terminator
strip_loop zero input = []
strip_loop (suc fuel) [] = []
strip_loop (suc fuel) (b ∷ []) = b ∷ []
strip_loop (suc fuel) (b ∷ (next ∷ rest)) =
    let skip = strip_loop fuel (behind (kind next) next rest) in
    let keep = b ∷ strip_loop fuel (next ∷ rest) in if b == esc then skip else keep

unfoldable pub strip_control_sequences : List ℕ → List ℕ
unfolding strip_loop
strip_control_sequences input = strip_loop (length input) input

abbrev pub add_some : ℕ → Option ℕ → Option ℕ
add_some k none = none
add_some k (some n) = some (k + n)

-- The end of the other sequences, counted from the byte behind ESC.
abbrev pub end_at_byte : Option ℕ → ℕ → Option ℕ
end_at_byte none j = none
end_at_byte (some t) j = if is_escape_final t then some (suc j) else some j

abbrev pub other_end : List ℕ → Option ℕ
other_end bytes = let j = run_length is_intermediate bytes in end_at_byte (get_elem? bytes j) j

abbrev pub kind_end : Kind → ℕ → List ℕ → Option ℕ
kind_end csi next rest = map_suc (map_suc (consume_csi rest))
kind_end osc next rest = map_suc (map_suc (consume_string_until rest bel))
kind_end string next rest = map_suc (map_suc (consume_string_until rest 0))
kind_end other next rest = map_suc (other_end (next ∷ rest))

-- On the bytes behind ESC.
unfoldable pub sequence_end : List ℕ → Option ℕ
unfolding consume_csi consume_string_until
sequence_end [] = none
sequence_end (next ∷ rest) = kind_end (kind next) next rest

-- `match sequence_end(input, i)` of the loop below, with the rounds that follow as `go`.
abbrev pub at_escape : (List ℕ → Option ℕ) → Option ℕ → List ℕ → Option ℕ
at_escape go none input = some 0
at_escape go (some e) input = add_some e (go (drop e input))

-- The loop of `incomplete_trailing_start`.
pub trailing_loop : ℕ → List ℕ → Option ℕ
unfolding sequence_end
trailing_loop zero input = none
trailing_loop (suc fuel) [] = none
trailing_loop (suc fuel) (b ∷ rest) =
    let text = map_suc (trailing_loop fuel rest) in
    let sequence = at_escape (trailing_loop fuel) (sequence_end rest) (b ∷ rest) in
    if b == esc then sequence else text

unfoldable pub incomplete_trailing_start : List ℕ → Option ℕ
unfolding trailing_loop
incomplete_trailing_start input = trailing_loop (length input) input

pub record StripPageResult : Type 0 where
  pub text : List ℕ
  pub trailing : List ℕ

abbrev pub cut_page : List ℕ → Option ℕ → StripPageResult
cut_page full none = record { text = strip_control_sequences full; trailing = [] }
cut_page full (some start) =
    let text = strip_control_sequences (take start full) in
    if ltb max_pending_bytes (length full - start)
    then record { text = text; trailing = [] }
    else record { text = text; trailing = drop start full }

unfoldable pub strip_page_inner : List ℕ → StripPageResult
unfolding strip_control_sequences incomplete_trailing_start
strip_page_inner full = cut_page full (incomplete_trailing_start full)

unfoldable pub strip_page : List ℕ → List ℕ → StripPageResult
unfolding strip_page_inner
strip_page input [] = strip_page_inner input
strip_page input (b ∷ pending) = strip_page_inner ((b ∷ pending) ++ input)
