-- ===== src/Ansi/Strings.antt =====
-- The string sequences (OSC, DCS, APC, PM, SOS): the two consuming loops agree on an ended one.
use term_bridge.Prelude.{
  ℕ, zero, suc, ◌≤◌, ◌<◌, ◌≡◌, refl, sym, true, false, inl, inr, Option, none, some, List, [], ◌∷◌,
  ◌++◌, length, take, drop, arith, Bool-cases, ◌==◌, ==_iff,
}
use term_bridge.Ansi.{
  esc, backslash, starts_backslash, ends_bel, ends_st, ends_lone, map_suc, run_length,
  consume_string_terminator, consume_string_until, strip_control_sequences,
}
use term_bridge.Ansi.Rest.{strip-escape}

-- `ext` goes on as `rest` does, where neither is empty.
abbrev pub HeadFits : List ℕ → List ℕ → Type 0
HeadFits [] rest = Unit
HeadFits (z ∷ ext) [] = Unit
HeadFits (z ∷ ext) (r ∷ rest) = z ≡ r

-- Where only ST ends the string, an ended one has a byte.
until_pos : (rest : List ℕ) (n : ℕ) → consume_string_until rest 0 ≡ some n → 0 < n
unfolding consume_string_until
until_pos [] n h = cc
until_pos (b ∷ rest) n h = ground (arith, until_pos rest)

-- `ESC \` alone is a whole sequence.
st_alone :
    (ext : List ℕ) → strip_control_sequences (esc ∷ (backslash ∷ ext)) ≡ strip_control_sequences ext
unfolding run_length
st_alone ext = strip-escape backslash ext

-- One round of the loop, for each way it can go.
module _ (b t : ℕ) (rest : List ℕ) where
  round_bel : ends_bel t b ≡ true → consume_string_terminator (b ∷ rest) t ≡ 1
  unfolding consume_string_terminator
  round_bel h = rw h refl

  round_st :
      ends_bel t b ≡ false → ends_st b rest ≡ true → consume_string_terminator (b ∷ rest) t ≡ 2
  unfolding consume_string_terminator
  round_st nb h = rw (nb, h) refl

  round_lone :
      ends_bel t b ≡ false
      → ends_st b rest ≡ false
      → ends_lone t b ≡ true
      → consume_string_terminator (b ∷ rest) t ≡ 0
  unfolding consume_string_terminator
  round_lone nb ns h = rw (nb, ns, h) refl

  round_more :
      ends_bel t b ≡ false
      → ends_st b rest ≡ false
      → ends_lone t b ≡ false
      → consume_string_terminator (b ∷ rest) t ≡ suc (consume_string_terminator rest t)
  unfolding consume_string_terminator
  round_more nb ns nl = rw (nb, ns, nl) refl

lone_esc : (t b : ℕ) → ends_lone t b ≡ true → b ≡ esc
lone_esc t b h = ground arith

st_inv :
    (b : ℕ) (rest : List ℕ)
    → ends_st b rest ≡ true
    → (tail : List ℕ) × (b ≡ esc) × (rest ≡ backslash ∷ tail)
st_inv b [] h = ground arith
st_inv b (r ∷ tail) h = (tail, ground arith, ground arith)

-- After the string was ended by a lone ESC, what begins there is read the same way.
lone_skip :
    (ext rest : List ℕ) (b t : ℕ)
    → ends_bel t b ≡ false
    → ends_lone t b ≡ true
    → HeadFits ext (b ∷ rest)
    → strip_control_sequences (drop (consume_string_terminator ext t) ext)
      ≡ strip_control_sequences ext
lone_skip [] rest b t nb l f = unfold consume_string_terminator in refl
lone_skip (z ∷ ext) rest b t nb l f = rw f (elim (Bool-cases (ends_st b ext)) [
  | inr ns ↦ rw (round_lone b t ext nb ns l) refl
  | inl st ↦
      let (tail, be, ee) = st_inv b ext st in
      rw (round_st b t ext nb st) (rw (ee, be) (sym (st_alone tail)))
])

fits_backslash :
    (n : ℕ) (rest ext : List ℕ)
    → 0 < n
    → n ≤ length rest
    → starts_backslash (take n rest ++ ext) ≡ starts_backslash rest
fits_backslash zero rest ext h l = absurd (omega arith)
fits_backslash (suc n) [] ext h l = absurd (omega arith)
fits_backslash (suc n) (r ∷ rest) ext h l = refl

-- The ways in which a round over `b` finds the end of a string `n` bytes on.
data Ends (b t : ℕ) (rest : List ℕ) (n : ℕ) : Type 0 where
  by_bel : ends_bel t b ≡ true → n ≡ 1 → Ends b t rest n
  by_st : ends_bel t b ≡ false → ends_st b rest ≡ true → n ≡ 2 → Ends b t rest n
  by_lone :
      ends_bel t b ≡ false → ends_st b rest ≡ false → ends_lone t b ≡ true → n ≡ 0 → Ends b t rest n
  later :
      (m : ℕ)
      → ends_bel t b ≡ false
      → ends_st b rest ≡ false
      → ends_lone t b ≡ false
      → n ≡ suc m
      → consume_string_until rest t ≡ some m
      → Ends b t rest n

pub map_suc-inv : (o : Option ℕ) (n : ℕ) → map_suc o ≡ some n → (m : ℕ) × (n ≡ suc m) × (o ≡ some m)
map_suc-inv none n h = cc
map_suc-inv (some m) n h = (m, cc, refl)

until-Ends :
    (b t : ℕ) (rest : List ℕ) (n : ℕ) → consume_string_until (b ∷ rest) t ≡ some n → Ends b t rest n
unfolding consume_string_until
until-Ends b t rest n h = elim (Bool-cases (ends_bel t b)) [
  | inl e1 ↦ by_bel e1 (cc (rw e1 at h))
  | inr n1 ↦ elim (Bool-cases (ends_st b rest)) [
    | inl e2 ↦ by_st n1 e2 (cc (rw (n1, e2) at h))
    | inr n2 ↦ elim (Bool-cases (ends_lone t b)) [
      | inl e3 ↦ by_lone n1 n2 e3 (cc (rw (n1, n2, e3) at h))
      | inr n3 ↦
          let (m, em, found) = map_suc-inv (consume_string_until rest t) n (rw (n1, n2, n3) at h) in
          later m n1 n2 n3 em found
    ]
  ]
]

st_nonempty : (b : ℕ) (rest : List ℕ) → ends_st b rest ≡ true → 0 < length rest
st_nonempty b [] h = ground arith
st_nonempty b (r ∷ rest) h = omega arith

pub until-le : (rest : List ℕ) (t n : ℕ) → consume_string_until rest t ≡ some n → n ≤ length rest
until-le [] t n h = unfold consume_string_until in cc
until-le (b ∷ rest) t n h = elim (until-Ends b t rest n h) [
  | by_bel _ e ↦ omega arith
  | by_st _ s e ↦ omega (arith, st_nonempty b rest s)
  | by_lone _ _ _ e ↦ omega arith
  | later m _ _ _ e f ↦ omega (arith, until-le rest t m f)
]

-- The test for ST reads one byte ahead, and that byte is kept.
st_kept :
    (b t n : ℕ) (rest ext : List ℕ)
    → ends_st b rest ≡ false
    → ends_lone t b ≡ false
    → consume_string_until rest t ≡ some n
    → ends_st b (take n rest ++ ext) ≡ false
st_kept b t n rest ext ns nl h = elim (Bool-cases (t == 0)) [
  | inl z ↦
      rw
        (fits_backslash n rest ext (until_pos rest n (rw ((==_iff t 0).0 z) at h))
          (until-le rest t n h))
        ns
  | inr nz ↦ ground arith
]

st_skip :
    (b t : ℕ) (rest ext : List ℕ)
    → ends_bel t b ≡ false
    → ends_st b rest ≡ true
    → strip_control_sequences
        (drop (consume_string_terminator (take 2 (b ∷ rest) ++ ext) t) (take 2 (b ∷ rest) ++ ext))
      ≡ strip_control_sequences ext
st_skip b t [] ext nb st = absurd (omega (arith, st_nonempty b [] st))
st_skip b t (r ∷ rest) ext nb st = rw (round_st b t (r ∷ ext) nb st) refl

-- A string that has ended is consumed up to its end, whatever follows it.
pub string_skip :
    (rest ext : List ℕ) (t n : ℕ)
    → consume_string_until rest t ≡ some n
    → HeadFits ext (drop n rest)
    → strip_control_sequences
        (drop (consume_string_terminator (take n rest ++ ext) t) (take n rest ++ ext))
      ≡ strip_control_sequences ext
string_skip [] ext t n h f = unfold consume_string_until in cc
string_skip (b ∷ rest) ext t n h f = elim (until-Ends b t rest n h) [
  | by_bel e1 e ↦ rw e (rw (round_bel b t ext e1) refl)
  | by_st n1 e2 e ↦ rw e (st_skip b t rest ext n1 e2)
  | by_lone n1 n2 e3 e ↦ rw e (lone_skip ext rest b t n1 e3 (rw e at f))
  | later m n1 n2 n3 e found ↦ rw e (
      rw (round_more b t (take m rest ++ ext) n1 (st_kept b t m rest ext n2 n3 found) n3)
        (string_skip rest ext t m found (rw e at f)))
]
