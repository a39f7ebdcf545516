-- ===== src/PathPolicy/Lexical/Remaining.antt =====
-- The loop over the segments of a rooted path, against a reading from the last segment back.
use mathlib.Core.List.{reverse, reverse-cons}
use term_bridge.Prelude.{
  ℕ, suc, ◌-◌, ◌≡◌, inl, inr, refl, sym, ap, ◌∙◌, true, false, List, [], ◌∷◌, ◌++◌, arith,
  if◌then◌else◌, Bool-cases, ◌||◌, ◌==◌, append_assoc, suc_ne_zero,
}
use term_bridge.Text.{Text, eq_text, slash, contains_char}
use term_bridge.PathPolicy.Lexical.{dot, dot_dot, push_segment, push_segments}

-- A segment that says where to go, and is no slash, dot or double dot.
abbrev pub IsName : Text → Type 0
IsName seg =
    (eq_text seg [] ≡ false)
    × (eq_text seg dot ≡ false)
    × (eq_text seg dot_dot ≡ false)
    × (contains_char slash seg ≡ false)

abbrev pub AllNames : List Text → Type 0
AllNames [] = Unit
AllNames (seg ∷ segs) = IsName seg × AllNames segs

abbrev pub NoSlash : List Text → Type 0
NoSlash [] = Unit
NoSlash (seg ∷ segs) = (contains_char slash seg ≡ false) × NoSlash segs

-- What is left of the segments of a path, read from the last one back: each `..` takes away the
-- next name before it that no other `..` takes, and does nothing where there is none. The names
-- come in the same order, the last of them first; `ups` counts the `..` that wait for a name.
unfoldable pub remaining : ℕ → List Text → List Text
remaining ups [] = []
remaining ups (seg ∷ before) =
    let skipped = remaining ups before in
    let up = remaining (suc ups) before in
    let taken = remaining (ups - 1) before in
    if eq_text seg [] || eq_text seg dot
    then skipped
    else if eq_text seg dot_dot
    then up
    else if ups == 0
    then seg ∷ taken
    else taken

push_segment-AllNames :
    (segments : List Text) (seg : Text)
    → AllNames segments
    → contains_char slash seg ≡ false
    → AllNames (push_segment true segments seg)
push_segment-AllNames segments seg h n = elim (Bool-cases (eq_text seg [] || eq_text seg dot)) [
  | inl t ↦ rw t h
  | inr f ↦ elim (Bool-cases (eq_text seg dot_dot)) [
    | inl t ↦ rw (f, t) (popped segments h)
    | inr g ↦ rw (f, g) (((either f).0, (either f).1, g, n), h)
  ]
]
  where
    popped :
        (segments : List Text) → AllNames segments → AllNames (push_segment true segments dot_dot)
    popped [] q = tt
    popped (s ∷ segments) q = q.1

    either :
        (eq_text seg [] || eq_text seg dot) ≡ false
        → (eq_text seg [] ≡ false) × (eq_text seg dot ≡ false)
    either f = ground arith

pub push_segments-AllNames :
    (segments segs : List Text)
    → AllNames segments
    → NoSlash segs
    → AllNames (push_segments true segments segs)
unfolding push_segments
push_segments-AllNames segments [] h n = h
push_segments-AllNames segments (seg ∷ segs) h n =
    push_segments-AllNames (push_segment true segments seg) segs
      (push_segment-AllNames segments seg h n.0) n.1

remaining-name :
    (ups : ℕ) (seg : Text) (before : List Text)
    → IsName seg
    → remaining ups (seg ∷ before)
      ≡ (if ups == 0 then seg ∷ remaining (ups - 1) before else remaining (ups - 1) before)
unfolding remaining
remaining-name ups seg before (a, b, c, d) = rw (a, b, c) refl

remaining-names : (segs : List Text) → AllNames segs → remaining 0 segs ≡ segs
unfolding remaining
remaining-names [] h = refl
remaining-names (seg ∷ segs) (h, hs) =
    remaining-name 0 seg segs h ∙ ap (λ l. seg ∷ l) (remaining-names segs hs)

-- One step of the loop leaves what is remaining.
remaining-push_segment :
    (ups : ℕ) (segments : List Text) (seg : Text)
    → AllNames segments
    → remaining ups (push_segment true segments seg) ≡ remaining ups (seg ∷ segments)
unfolding remaining
remaining-push_segment ups segments seg h = elim (Bool-cases (eq_text seg [] || eq_text seg dot)) [
  | inl t ↦ rw t refl
  | inr f ↦ elim (Bool-cases (eq_text seg dot_dot)) [
    | inl t ↦ rw (f, t) (popped segments h)
    | inr g ↦ rw (f, g) (rw (f, g) refl)
  ]
]
  where
    popped :
        (segments : List Text)
        → AllNames segments
        → remaining ups (push_segment true segments dot_dot) ≡ remaining (suc ups) segments
    popped [] q = refl
    popped (s ∷ segments) q = sym (
        remaining-name (suc ups) s segments q.0
        ∙ rw (suc_ne_zero ups) (ap (λ n. remaining n segments) (omega arith)))

remaining-append :
    (xs segs segs' : List Text)
    → ((ups : ℕ) → remaining ups segs ≡ remaining ups segs')
    → (ups : ℕ) → remaining ups (xs ++ segs) ≡ remaining ups (xs ++ segs')
unfolding remaining
remaining-append [] segs segs' same ups = same ups
remaining-append (x ∷ xs) segs segs' same ups =
    rw
      (
        remaining-append xs segs segs' same ups,
        remaining-append xs segs segs' same (suc ups),
        remaining-append xs segs segs' same (ups - 1),
      )
      refl

-- The loop against the reading from behind.
pub push_segments-remaining :
    (segments segs : List Text)
    → AllNames segments
    → NoSlash segs
    → push_segments true segments segs ≡ remaining 0 (reverse segs ++ segments)
unfolding push_segments
push_segments-remaining segments [] h n = sym (remaining-names segments h)
push_segments-remaining segments (seg ∷ segs) h n =
    push_segments-remaining (push_segment true segments seg) segs
      (push_segment-AllNames segments seg h n.0) n.1
    ∙ (remaining-append (reverse segs) (push_segment true segments seg) (seg ∷ segments)
          (λ ups. remaining-push_segment ups segments seg h) 0
        ∙ ap (remaining 0) (
            sym (
              ap (λ l. l ++ segments) (reverse-cons seg segs)
              ∙ append_assoc (reverse segs) (seg ∷ []) segments)))
