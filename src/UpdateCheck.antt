-- ===== src/UpdateCheck.antt =====
-- src/infrastructure/update_check.rs: the comparison of versions, and what a start does with the
-- cached one. The environment, the cache file and the clock are arguments.
pub mod Order
use term_bridge.Prelude.{
  ℕ, ◌+◌, ◌-◌, ◌*◌, Bool, not, true, false, ◌&&◌, ◌||◌, Option, none, some, List, [], ◌∷◌, leb, ltb,
  ◌==◌, if◌then◌else◌,
}
use term_bridge.Text.{Text, split}
use term_bridge.Policy.Lines.{is_empty}
use term_bridge.Ring.{u64}

-- One more digit of a number that fits a u64.
abbrev add_digit : ℕ → ℕ → Option ℕ
add_digit n c =
    let more = n * 10 + (c - b'0') in
    if leb b'0' c && (leb c b'9' && ltb more u64) then some more else none

abbrev digits_from : Option ℕ → Text → Option ℕ
digits_from n [] = n
digits_from none (c ∷ s) = none
digits_from (some n) (c ∷ s) = digits_from (add_digit n c) s

abbrev all_digits : Text → Option ℕ
all_digits [] = none
all_digits (c ∷ s) = digits_from (some 0) (c ∷ s)

-- s.parse::<u64>().ok(): one plus sign may come first.
abbrev pub parse_u64 : Text → Option ℕ
parse_u64 [] = none
parse_u64 (c ∷ s) = if c == b'+' then all_digits s else all_digits (c ∷ s)

abbrev strip_v : Text → Text
strip_v [] = []
strip_v (c ∷ s) = if c == b'v' then s else c ∷ s

pub record Version : Type 0 where
  pub major : ℕ
  pub minor : ℕ
  pub patch : ℕ

abbrev version_of : Option ℕ → Option ℕ → Option ℕ → Option Version
version_of (some x) (some y) (some z) = some (record { major = x; minor = y; patch = z })
version_of (some x) (some y) none = none
version_of (some x) none z = none
version_of none y z = none

-- What follows a third piece is not looked at.
abbrev of_pieces : List Text → Option Version
of_pieces [] = none
of_pieces (x ∷ []) = none
of_pieces (x ∷ (y ∷ [])) = none
of_pieces (x ∷ (y ∷ (z ∷ more))) = version_of (parse_u64 x) (parse_u64 y) (parse_u64 z)

unfoldable pub parse_version : Text → Option Version
parse_version s = of_pieces (split b'.' (strip_v s))

-- `a > b` on the triples
abbrev pub above : Version → Version → Bool
above a b =
    ltb b.major a.major
    || (b.major == a.major && (ltb b.minor a.minor || (b.minor == a.minor && ltb b.patch a.patch)))

abbrev pub both_above : Option Version → Option Version → Bool
both_above (some a) (some b) = above a b
both_above (some a) none = false
both_above none b = false

unfoldable pub is_newer : Text → Text → Bool
unfolding parse_version
is_newer a b = both_above (parse_version a) (parse_version b)

pub record UpdateCache : Type 0 where
  pub version : Text
  pub checked_at_unix : ℕ

abbrev pub throttle_secs : ℕ
throttle_secs = 24 * 60 * 60

-- The version that the notice names, what is written to the cache before the background thread
-- starts, and whether that thread starts.
pub record Started : Type 0 where
  pub notice : Option Text
  pub placeholder : Option UpdateCache
  pub fetches : Bool

abbrev notice_of : Text → Option UpdateCache → Option Text
notice_of current none = none
notice_of current (some c) = if is_newer c.version current then some c.version else none

abbrev pub is_stale : Option UpdateCache → ℕ → Bool
is_stale none now = true
is_stale (some c) now = leb throttle_secs (now - c.checked_at_unix)

abbrev version_or : Text → Option UpdateCache → Text
version_or current none = current
version_or current (some c) = c.version

-- With a cache directory. The clock is read twice, the second time for the write.
unfoldable pub start_with : Text → Option UpdateCache → ℕ → ℕ → Started
unfolding is_newer
start_with current cache now then_now =
    if is_stale cache now
    then record {
      notice = notice_of current cache;
      placeholder =
          some (record { version = version_or current cache; checked_at_unix = then_now });
      fetches = true;
    }
    else record { notice = notice_of current cache; placeholder = none; fetches = false }

abbrev quiet : Started
quiet = record { notice = none; placeholder = none; fetches = false }

abbrev is_disabled : Option Text → Bool
is_disabled none = false
is_disabled (some v) = not (is_empty v)

-- `var` is TERMBRIDGE_NO_UPDATE_CHECK, and `has_dir` says whether there is a cache directory.
unfoldable pub check_for_updates : Option Text → Bool → Text → Option UpdateCache → ℕ → ℕ → Started
unfolding start_with
check_for_updates var has_dir current cache now then_now =
    if is_disabled var
    then quiet
    else if has_dir
    then start_with current cache now then_now
    else quiet
