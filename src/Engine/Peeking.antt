-- ===== src/Engine/Peeking.antt =====
-- The two modes that only look: `since_cursor` and `tail_lines`.
use term_bridge.Prelude.{
  ℕ, ◌≡◌, ◌⊎◌, inl, inr, refl, Option, none, some, List, Bool-cases, not, ◌&&◌, ◌||◌, ◌==◌,
}
use term_bridge.Ring.{is_truncated}
use term_bridge.Engine.{
  OutputEngine, ReadOutputParams, ReadOutputResult, Surroundings, read_output, read_since_mode,
  read_tail_mode, strip_since_page,
}
use term_bridge.Engine.Lines.{Match}

-- The engine that a look leaves has the same bytes and the same mark.
pub record SameReading (e e' : OutputEngine) : Type 0 where
  pub buffer : e'.buffer ≡ e.buffer
  pub mark : e'.mark_cursor ≡ e.mark_cursor

strip_since_page-keeps :
    (e : OutputEngine) (a b : ℕ) (bytes : List ℕ) → SameReading e (strip_since_page e a b bytes).1
unfolding strip_since_page
strip_since_page-keeps e a b bytes =
    elim (Bool-cases (
      not (is_truncated e.buffer a)
      && (not e.strip_carry.armed || e.strip_carry.next_cursor == a))) [
        | inl t ↦ rw t (record { buffer = refl; mark = refl })
        | inr f ↦ rw f (record { buffer = refl; mark = refl })
      ]

pub read_since_mode-keeps :
    (e : OutputEngine) (params : ReadOutputParams) (c : ℕ)
    → SameReading e (read_since_mode e params c).0
unfolding read_since_mode
read_since_mode-keeps e params c = elim (Bool-cases params.strip_ansi) [
  | inl t ↦ rw t (strip_since_page-keeps e c _ _)
  | inr f ↦ rw f (record { buffer = refl; mark = refl })
]

-- A request with a cursor or with a number of lines.
abbrev pub IsLook : ReadOutputParams → Type 0
IsLook params =
    ((c : ℕ) × (params.since_cursor ≡ some c))
    ⊎ ((n : ℕ) × (params.since_cursor ≡ none) × (params.tail_lines ≡ some n))

module _ {R : Type 0} (compile : List ℕ → Option R) (find : R → List ℕ → Option Match) where
  -- A request with a cursor or with a number of lines returns at once and leaves the ring and
  -- the mark as they were.
  pub look-keeps :
      (e : OutputEngine) (params : ReadOutputParams) (s : Surroundings)
      → IsLook params
      → (p : OutputEngine × ReadOutputResult) × (read_output compile find e params s ≡ some p)
        × SameReading e p.0
  unfolding read_output
  look-keeps e params s (inl (c, h)) =
      (read_since_mode e params c, rw (h, read_output) refl, read_since_mode-keeps e params c)
  look-keeps e params s (inr (n, h, t)) = (
    read_tail_mode e params n,
    rw (h, t) refl,
    unfold read_tail_mode in record { buffer = refl; mark = refl },
  )
