-- ===== src/PathPolicy/Lexical/Clean.antt =====
-- The segments of a normalised path.
use mathlib.Core.List.{reverse}
use term_bridge.Prelude.{
  ℕ, ◌≡◌, ◌⊎◌, inl, inr, refl, ap, Bool, true, false, List, [], ◌∷◌, ◌++◌, if◌then◌else◌,
  Bool-cases, ◌&&◌, not, ◌==◌,
}
use term_bridge.Text.{Text, split, slash, join_slash, cons_piece}
use term_bridge.PathPolicy.Lexical.{
  segments_of, is_rooted, tilde, normalize_remote_path_lexical, initial, body, ends_slash,
}
use term_bridge.PathPolicy.Lexical.Remaining.{
  AllNames, NoSlash, remaining, push_segments-AllNames, push_segments-remaining,
}

cons_piece-NoSlash :
    (b : ℕ) (pieces : List Text)
    → (b == slash) ≡ false
    → NoSlash pieces
    → NoSlash (cons_piece b pieces)
cons_piece-NoSlash b [] f h = (rw f refl, tt)
cons_piece-NoSlash b (s ∷ ss) f h = (rw f h.0, h.1)

split-NoSlash : (s : Text) → NoSlash (split slash s)
split-NoSlash [] = (refl, tt)
split-NoSlash (b ∷ s) = elim (Bool-cases (b == slash)) [
  | inl t ↦ rw t (refl, split-NoSlash s)
  | inr f ↦ rw f (cons_piece-NoSlash b (split slash s) f (split-NoSlash s))
]

initial-AllNames : (path : Text) → AllNames (initial path)
initial-AllNames [] = tt
initial-AllNames (b ∷ path) = elim (Bool-cases (b == tilde)) [
  | inl t ↦ rw t ((refl, refl, refl, refl), tt)
  | inr f ↦ rw f tt
]

-- The segments of a rooted path, `~` being the first of its own, with the `..` resolved.
abbrev pub resolved : Text → List Text
resolved path = remaining 0 (reverse (split slash (body path)) ++ initial path)

segments_of-resolved : (path : Text) → is_rooted path ≡ true → segments_of path ≡ resolved path
unfolding segments_of
segments_of-resolved path h = rw h (
    push_segments-remaining (initial path) (split slash (body path)) (initial-AllNames path)
      (split-NoSlash (body path)))

segments_of-AllNames : (path : Text) → is_rooted path ≡ true → AllNames (segments_of path)
unfolding segments_of
segments_of-AllNames path h = rw h (
    push_segments-AllNames (initial path) (split slash (body path)) (initial-AllNames path)
      (split-NoSlash (body path)))

-- The text of a rooted path over these segments, the last of them first.
abbrev pub rooted_text : List Text → Text
rooted_text segments = slash ∷ join_slash (reverse segments)

-- The slash that a path ends in, put back.
abbrev finish : Bool → Text → Text
finish e out = if e && not (ends_slash out) then out ++ (slash ∷ []) else out

finish-kept :
    (out : Text) (e : Bool)
    → (finish e out ≡ out) ⊎ ((e ≡ true) × (finish e out ≡ out ++ (slash ∷ [])))
finish-kept out false = inl refl
finish-kept out true = elim (Bool-cases (ends_slash out)) [
  | inl t ↦ inl (rw t refl)
  | inr f ↦ inr (refl, rw f refl)
]

normalize-finish :
    (path : Text)
    → is_rooted path ≡ true
    → normalize_remote_path_lexical path ≡ finish (ends_slash path) (rooted_text (segments_of path))
unfolding normalize_remote_path_lexical
normalize-finish path h =
    ap
      (λ b.
        finish (ends_slash path)
          (if b then rooted_text (segments_of path) else join_slash (reverse (segments_of path))))
      h

-- A path that begins with `/` or `~` is normalised to the path from the root over those of its
-- segments that remain, up to a slash at the end that the path had: empty ones and `.` do not,
-- and, counted from the last segment back, each `..` takes away the nearest name before it that
-- no other `..` takes, or nothing where there is none, where a leading `~` is a name. No segment
-- that remains is empty, `.` or `..` or has a slash.
pub normalize_rooted :
    (path : Text)
    → is_rooted path ≡ true
    → AllNames (resolved path)
      × ((normalize_remote_path_lexical path ≡ rooted_text (resolved path))
          ⊎ ((ends_slash path ≡ true)
              × (normalize_remote_path_lexical path ≡ rooted_text (resolved path) ++ (slash ∷ []))))
normalize_rooted path h =
    rw (← segments_of-resolved path h, normalize-finish path h)
      (segments_of-AllNames path h, finish-kept (rooted_text (segments_of path)) (ends_slash path))
