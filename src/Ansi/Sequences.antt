-- ===== src/Ansi/Sequences.antt =====
-- A sequence that `sequence_end` finds whole is stripped whole, whatever follows it.
use term_bridge.Prelude.{
  ℕ, zero, suc, ◌≤◌, ◌<◌, ◌≡◌, ◌≢◌, refl, ap, ◌∙◌, Bool, true, false, inl, inr, Option, none, some,
  List, [], ◌∷◌, ◌++◌, length, get_elem?, take, drop, arith, if◌then◌else◌, Bool-cases,
  Option-cases, append-nil, length-take,
}
use term_bridge.Ansi.{
  Kind, csi, osc, string, other, kind, kind_end, behind, drop_other, other_end, is_escape_final,
  is_intermediate, run_length, map_suc, esc, bel, sequence_end, strip_control_sequences,
  consume_csi, consume_string_until,
}
use term_bridge.Ansi.Rest.{strip-escape}
use term_bridge.Ansi.Runs.{
  run_length-keep, get_elem?-keep, get_elem?-lt, drop-take-append, consume_csi-keep,
}
use term_bridge.Ansi.Strings.{HeadFits, map_suc-inv, string_skip, until-le}

-- The bytes behind `ESC next` are consumed up to `n`.
abbrev Skips : Kind → ℕ → List ℕ → List ℕ → ℕ → Type 0
Skips k next rest ext n =
    strip_control_sequences (behind k next (take n rest ++ ext)) ≡ strip_control_sequences ext

csi_skip :
    (next : ℕ) (rest ext : List ℕ) (n : ℕ) → consume_csi rest ≡ some n → Skips csi next rest ext n
csi_skip next rest ext n h =
    let (same, le) = consume_csi-keep rest ext n h in
    rw same (rw (drop-take-append n rest ext le) refl)

take-suc :
    (j : ℕ) (xs ext : List ℕ) {t : ℕ}
    → get_elem? xs j ≡ some t
    → take j xs ++ (t ∷ ext) ≡ take (suc j) xs ++ ext
take-suc j [] ext h = cc
take-suc zero (x ∷ xs) ext h = cc
take-suc (suc j) (x ∷ xs) ext h = ap (λ l. x ∷ l) (take-suc j xs ext h)

get_elem?-end : (xs : List ℕ) (i : ℕ) → length xs ≤ i → get_elem? xs i ≡ none
get_elem?-end [] i h = refl
get_elem?-end (x ∷ xs) zero h = absurd (omega arith)
get_elem?-end (x ∷ xs) (suc i) h = get_elem?-end xs i (omega arith)

run_length_whole :
    (test : ℕ → Bool) (xs : List ℕ)
    → run_length test (take (run_length test xs) xs) ≡ run_length test xs
unfolding run_length
run_length_whole test [] = refl
run_length_whole test (x ∷ xs) = elim (Bool-cases (test x)) [
  | inl t ↦ rw t (rw t (ap suc (run_length_whole test xs)))
  | inr f ↦ rw f refl
]

-- The byte behind the intermediates decides the branch, and nothing behind it is read.
other_kept :
    (bytes ext : List ℕ) (j t : ℕ)
    → run_length is_intermediate bytes ≡ j
    → get_elem? bytes j ≡ some t
    → drop_other (take (suc j) bytes ++ ext) ≡ (if is_escape_final t then ext else t ∷ ext)
other_kept bytes ext j t e h =
    rw (same, get_elem?-keep j (suc j) bytes ext (omega arith) l, h)
      (elim (Bool-cases (is_escape_final t)) [
        | inl f ↦ rw f (drop-take-append (suc j) bytes ext (omega (arith, l)))
        | inr f ↦
            rw (f, ← take-suc j bytes ext h) (drop-take-append j bytes (t ∷ ext) (omega (arith, l)))
      ])
  where
    l : j < length bytes
    l = get_elem?-lt bytes j h

    same : run_length is_intermediate (take (suc j) bytes ++ ext) ≡ j
    same = run_length-keep is_intermediate (suc j) bytes ext (omega arith) (omega (arith, l)) ∙ e

-- Nothing but intermediates: the sequence is cut off.
other_cut :
    (bytes : List ℕ) (j : ℕ) → run_length is_intermediate bytes ≡ j → drop_other (take j bytes) ≡ []
other_cut bytes j e =
    rw (← e, run_length_whole is_intermediate bytes)
      (rw
        (get_elem?-end (take (run_length is_intermediate bytes) bytes)
          (run_length is_intermediate bytes)
          (omega (arith, length-take (run_length is_intermediate bytes) bytes)))
        refl)

data OtherEnds (bytes : List ℕ) (e : ℕ) : Type 0 where
  by_final :
      (j t : ℕ)
      → run_length is_intermediate bytes ≡ j
      → get_elem? bytes j ≡ some t
      → is_escape_final t ≡ true
      → e ≡ suc j
      → OtherEnds bytes e
  malformed :
      (j t : ℕ)
      → run_length is_intermediate bytes ≡ j
      → get_elem? bytes j ≡ some t
      → is_escape_final t ≡ false
      → e ≡ j
      → OtherEnds bytes e

other-OtherEnds : (bytes : List ℕ) (e : ℕ) → other_end bytes ≡ some e → OtherEnds bytes e
other-OtherEnds bytes e h = go (run_length is_intermediate bytes) refl
  where
    go : (j : ℕ) → run_length is_intermediate bytes ≡ j → OtherEnds bytes e
    go j ej = elim (Option-cases (get_elem? bytes j)) [
      | inl n ↦ cc (rw (ej, n) at h)
      | inr (t, s) ↦ elim (Bool-cases (is_escape_final t)) [
        | inl f ↦ by_final j t ej s f (cc (rw (ej, s, f) at h))
        | inr f ↦ malformed j t ej s f (cc (rw (ej, s, f) at h))
      ]
    ]

head_fits :
    (j : ℕ) (xs : List ℕ) (z : ℕ) (ext : List ℕ) {t : ℕ}
    → get_elem? xs j ≡ some t
    → HeadFits (z ∷ ext) (drop j xs)
    → z ≡ t
head_fits j [] z ext h f = cc
head_fits zero (x ∷ xs) z ext h f = cc
head_fits (suc j) (x ∷ xs) z ext h f = head_fits j xs z ext h f

-- The other sequences, on the bytes behind ESC.
other_skip :
    (bytes ext : List ℕ) (e : ℕ)
    → other_end bytes ≡ some e
    → HeadFits ext (drop e bytes)
    → drop_other (take e bytes ++ ext) ≡ ext
other_skip bytes ext e h f = elim (other-OtherEnds bytes e h) [
  | by_final j t ej s fin e' ↦ rw e' (other_kept bytes ext j t ej s ∙ rw fin refl)
  | malformed j t ej s fin e' ↦ rw e' (stops ext j t ej s fin (rw e' at f))
]
  where
    stops :
        (ext : List ℕ) (j t : ℕ)
        → run_length is_intermediate bytes ≡ j
        → get_elem? bytes j ≡ some t
        → is_escape_final t ≡ false
        → HeadFits ext (drop j bytes)
        → drop_other (take j bytes ++ ext) ≡ ext
    stops [] j t ej s fin f = rw (append-nil (take j bytes)) (other_cut bytes j ej)
    stops (z ∷ ext) j t ej s fin f =
        rw (head_fits j bytes z ext s f, take-suc j bytes ext s)
          (other_kept bytes ext j t ej s ∙ rw fin refl)

map_suc-some : (o : Option ℕ) (n : ℕ) → map_suc o ≡ some (suc n) → o ≡ some n
map_suc-some none n h = cc
map_suc-some (some m) n h = cc

two_behind : (o : Option ℕ) (e : ℕ) → map_suc (map_suc o) ≡ some e → 1 < e
two_behind none e h = cc
two_behind (some m) e h = let k : suc (suc m) ≡ e = cc in omega arith

-- The bytes behind ESC, once the kind of the sequence is known.
kind_skip :
    (next : ℕ) (rest ext : List ℕ) (k : Kind) (e : ℕ)
    → kind next ≡ k
    → kind_end k next rest ≡ some (suc (suc e))
    → HeadFits ext (drop (suc e) (next ∷ rest))
    → strip_control_sequences (esc ∷ (next ∷ (take e rest ++ ext))) ≡ strip_control_sequences ext
kind_skip next rest ext csi e k h f =
    strip-escape next (take e rest ++ ext)
    ∙ rw k (csi_skip next rest ext e (map_suc-some _ e (map_suc-some _ (suc e) h)))
kind_skip next rest ext osc e k h f =
    strip-escape next (take e rest ++ ext)
    ∙ rw k (string_skip rest ext bel e (map_suc-some _ e (map_suc-some _ (suc e) h)) f)
kind_skip next rest ext string e k h f =
    strip-escape next (take e rest ++ ext)
    ∙ rw k (string_skip rest ext 0 e (map_suc-some _ e (map_suc-some _ (suc e) h)) f)
kind_skip next rest ext other e k h f =
    strip-escape next (take e rest ++ ext)
    ∙ rw k (
        ap strip_control_sequences
          (other_skip (next ∷ rest) ext (suc e) (map_suc-some _ (suc e) h) f))

-- ESC before a byte that begins no sequence is skipped alone, if that byte is there.
malformed_skip :
    (next : ℕ) (rest ext : List ℕ) (k : Kind)
    → kind next ≡ k
    → kind_end k next rest ≡ some 1
    → HeadFits ext (next ∷ rest)
    → ext ≢ []
    → strip_control_sequences (esc ∷ ext) ≡ strip_control_sequences ext
malformed_skip next rest ext csi k h f ne = absurd (omega (arith, two_behind _ 1 h))
malformed_skip next rest ext osc k h f ne = absurd (omega (arith, two_behind _ 1 h))
malformed_skip next rest ext string k h f ne = absurd (omega (arith, two_behind _ 1 h))
malformed_skip next rest [] other k h f ne = absurd (ne refl)
malformed_skip next rest (z ∷ ext) other k h f ne = rw f (
    strip-escape next ext
    ∙ rw k (
        ap strip_control_sequences
          (other_skip (next ∷ rest) (next ∷ ext) 0 (map_suc-some _ 0 h) refl)))

-- A whole sequence leaves nothing behind, whatever follows; only an ESC that is skipped alone
-- must be followed by something.
pub sequence_skip :
    (bytes ext : List ℕ) (e : ℕ)
    → sequence_end bytes ≡ some e
    → HeadFits ext (drop e (esc ∷ bytes))
    → (e ≡ 1 → ext ≢ [])
    → strip_control_sequences (take e (esc ∷ bytes) ++ ext) ≡ strip_control_sequences ext
unfolding sequence_end
sequence_skip [] ext e h f ne = cc
sequence_skip (next ∷ rest) ext zero h f ne = refl
sequence_skip (next ∷ rest) ext (suc zero) h f ne =
    malformed_skip next rest ext (kind next) refl h f (ne refl)
sequence_skip (next ∷ rest) ext (suc (suc e)) h f ne =
    kind_skip next rest ext (kind next) e refl h f

two_more :
    (o : Option ℕ) (e l : ℕ)
    → map_suc (map_suc o) ≡ some e
    → ((n : ℕ) → o ≡ some n → n ≤ l)
    → (0 < e) × (e ≤ suc (suc l))
two_more none e l h le = cc
two_more (some n) e l h le =
    let same : suc (suc n) ≡ e = cc in (omega arith, omega (arith, le n refl))

other_end-bounds : (bytes : List ℕ) (e : ℕ) → other_end bytes ≡ some e → e ≤ length bytes
other_end-bounds bytes e h = elim (other-OtherEnds bytes e h) [
  | by_final j t ej s fin e' ↦ omega (arith, get_elem?-lt bytes j s)
  | malformed j t ej s fin e' ↦ omega (arith, get_elem?-lt bytes j s)
]

kind_end_bounds :
    (k : Kind) (next : ℕ) (rest : List ℕ) (e : ℕ)
    → kind_end k next rest ≡ some e
    → (0 < e) × (e ≤ suc (suc (length rest)))
kind_end_bounds csi next rest e h =
    two_more (consume_csi rest) e (length rest) h (λ n s. (consume_csi-keep rest [] n s).1)
kind_end_bounds osc next rest e h =
    two_more (consume_string_until rest bel) e (length rest) h (until-le rest bel)
kind_end_bounds string next rest e h =
    two_more (consume_string_until rest 0) e (length rest) h (until-le rest 0)
kind_end_bounds other next rest e h =
    let (m, same, found) = map_suc-inv (other_end (next ∷ rest)) e h in
    (omega arith, omega (arith, other_end-bounds (next ∷ rest) m found))

-- A sequence that has ended has a byte, and lies in the input.
pub sequence_end_bounds :
    (bytes : List ℕ) (e : ℕ) → sequence_end bytes ≡ some e → (0 < e) × (e ≤ suc (length bytes))
unfolding sequence_end
sequence_end_bounds [] e h = cc
sequence_end_bounds (next ∷ rest) e h = kind_end_bounds (kind next) next rest e h
