-- ===== src/PathPolicy/Lexical.antt =====
-- src/application/path_policy.rs: the functions on paths that look at the text alone. The
-- `segments` vector of `normalize_remote_path_lexical` stands here with its last segment first.
pub mod Remaining
pub mod Clean
use mathlib.Core.List.{reverse}
use term_bridge.Prelude.{
  ℕ, Bool, true, false, not, ◌&&◌, ◌||◌, Option, none, some, List, [], ◌∷◌, ◌++◌, ◌==◌,
  if◌then◌else◌,
}
use term_bridge.Text.{
  Text, codes, slash, eq_text, starts_with, ends_with, split, join_slash, trim_end_slashes,
}

abbrev pub tilde : ℕ
tilde = b'~'

abbrev pub dot : Text
dot = b'.' ∷ []

abbrev pub dot_dot : Text
dot_dot = b'.' ∷ (b'.' ∷ [])

pub data RemoteOperation : Type 0 where
  read write create delete chmod : RemoteOperation

pub data Reason : Type 0 where
  authorized_keys : Reason
  kernel_interface : RemoteOperation → Reason

-- The root without slashes at its end, but for "/".
abbrev or_root : Text → Text
or_root [] = slash ∷ []
or_root (b ∷ s) = b ∷ s

abbrev pub trimmed_root : Text → Text
trimmed_root root = or_root (trim_end_slashes root)

abbrev pub root_prefix : Text → Text
root_prefix root = if eq_text root (slash ∷ []) then slash ∷ [] else root ++ (slash ∷ [])

unfoldable pub is_under_remote : Text → Text → Bool
is_under_remote canonical root =
    let r = trimmed_root root in
    if eq_text canonical r then true else starts_with canonical (root_prefix r)

abbrev tilde_rest : Text → Text → Text → Text
tilde_rest path home [] = home
tilde_rest path home (b ∷ rest) = home ++ (slash ∷ (b ∷ rest))

unfoldable pub expand_tilde : Text → Option Text → Text
expand_tilde path none = path
expand_tilde [] (some home) = []
expand_tilde (a ∷ []) (some home) = if a == tilde then home else a ∷ []
expand_tilde (a ∷ (b ∷ rest)) (some home) =
    if a == tilde && b == slash then tilde_rest (a ∷ (b ∷ rest)) home rest else a ∷ (b ∷ rest)

abbrev pub is_authorized_keys : Text → Bool
is_authorized_keys canonical =
    ends_with canonical (codes "/.ssh/authorized_keys")
    || ends_with canonical (codes "/.ssh/authorized_keys2")

abbrev pub is_kernel_interface : Text → Bool
is_kernel_interface canonical =
    eq_text canonical (codes "/proc")
    || (starts_with canonical (codes "/proc/")
        || (eq_text canonical (codes "/sys") || starts_with canonical (codes "/sys/")))

abbrev deny_change : Text → RemoteOperation → Option Reason
deny_change canonical op =
    if is_authorized_keys canonical
    then some authorized_keys
    else if is_kernel_interface canonical
    then some (kernel_interface op)
    else none

unfoldable pub hard_safety_deny : Text → RemoteOperation → Option Reason
hard_safety_deny canonical read = none
hard_safety_deny canonical op = deny_change canonical op

abbrev pop : List Text → List Text
pop [] = []
pop (s ∷ segments) = segments

-- `..` on a path without a root.
abbrev relative_up : List Text → List Text
relative_up [] = dot_dot ∷ []
relative_up (s ∷ segments) = if eq_text s dot_dot then dot_dot ∷ (s ∷ segments) else segments

abbrev pub push_segment : Bool → List Text → Text → List Text
push_segment rooted segments seg =
    if eq_text seg [] || eq_text seg dot
    then segments
    else if eq_text seg dot_dot
    then (if rooted then pop segments else relative_up segments)
    else seg ∷ segments

-- The loop over the segments of the body.
pub push_segments : Bool → List Text → List Text → List Text
push_segments rooted segments [] = segments
push_segments rooted segments (seg ∷ segs) =
    push_segments rooted (push_segment rooted segments seg) segs

abbrev strip_slash : Text → Text
strip_slash [] = []
strip_slash (b ∷ rest) = if b == slash then rest else b ∷ rest

abbrev starts_with_char : ℕ → Text → Bool
starts_with_char c [] = false
starts_with_char c (b ∷ rest) = b == c

abbrev pub is_rooted : Text → Bool
is_rooted path = starts_with_char slash path || starts_with_char tilde path

abbrev pub body : Text → Text
body [] = []
body (b ∷ rest) = if b == tilde then strip_slash rest else b ∷ rest

abbrev pub initial : Text → List Text
initial path = if starts_with_char tilde path then (tilde ∷ []) ∷ [] else []

pub segments_of : Text → List Text
unfolding push_segments
segments_of path = push_segments (is_rooted path) (initial path) (split slash (body path))

abbrev pub ends_slash : Text → Bool
ends_slash [] = false
ends_slash (b ∷ []) = b == slash
ends_slash (b ∷ (c ∷ rest)) = ends_slash (c ∷ rest)

unfoldable pub normalize_remote_path_lexical : Text → Text
unfolding segments_of
normalize_remote_path_lexical path =
    let joined = join_slash (reverse (segments_of path)) in
    let out = if is_rooted path then slash ∷ joined else joined in
    if ends_slash path && not (ends_slash out) then out ++ (slash ∷ []) else out

-- s.rfind('/') and the text before it
abbrev cons_before : ℕ → Option Text → Option Text
cons_before b none = if b == slash then some [] else none
cons_before b (some before) = some (b ∷ before)

abbrev before_last_slash : Text → Option Text
before_last_slash [] = none
before_last_slash (b ∷ s) = cons_before b (before_last_slash s)

abbrev parent_of : Option Text → Option Text
parent_of none = none
parent_of (some []) = some (slash ∷ [])
parent_of (some (b ∷ before)) = some (b ∷ before)

unfoldable pub parent_remote_path : Text → Option Text
parent_remote_path path = parent_of (before_last_slash (trim_end_slashes path))
