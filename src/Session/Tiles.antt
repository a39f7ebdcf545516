-- ===== src/Session/Tiles.antt =====
-- src/domain/session.rs: what the timeline of a session tells about its output.
use term_bridge.Prelude.{
  ℕ, ◌+◌, ◌≤◌, ◌<◌, Bool-cases, List, [], ◌∷◌, ◌++◌, length, drop, leb, ◌≡◌, inl, inr, arith,
}
use term_bridge.Timeline.{
  TimelineEvent, command_event, output_event, control_event, state_change_event, Timeline, push,
}

-- From `from`, the outputs follow one another without a gap up to `upto`; no command was sent
-- later than at `written`.
abbrev pub Tiles : ℕ → ℕ → ℕ → List TimelineEvent → Type 0
Tiles from upto written [] = from ≡ upto
Tiles from upto written (command_event at id input cursor ∷ es) =
    (cursor ≤ written) × Tiles from upto written es
Tiles from upto written (output_event at start end bytes ∷ es) =
    (start ≡ from) × (end ≡ start + bytes) × (0 < bytes) × Tiles end upto written es
Tiles from upto written (control_event at key ∷ es) = Tiles from upto written es
Tiles from upto written (state_change_event at old new ∷ es) = Tiles from upto written es

-- What is left when the oldest event goes begins at some other place.
abbrev pub TilesFrom : ℕ → ℕ → List TimelineEvent → Type 0
TilesFrom upto written es = (from : ℕ) × Tiles from upto written es

TilesFrom-drop :
    (upto written : ℕ) (es : List TimelineEvent)
    → TilesFrom upto written es
    → TilesFrom upto written (drop 1 es)
TilesFrom-drop upto written [] t = t
TilesFrom-drop upto written (command_event at id input cursor ∷ es) (from, t) = (from, t.1)
TilesFrom-drop upto written (output_event at start end bytes ∷ es) (from, (a, b, c, t)) = (end, t)
TilesFrom-drop upto written (control_event at key ∷ es) (from, t) = (from, t)
TilesFrom-drop upto written (state_change_event at old new ∷ es) (from, t) = (from, t)

-- More bytes change nothing.
Tiles-more :
    (from upto written more : ℕ) (es : List TimelineEvent)
    → written ≤ more
    → Tiles from upto written es
    → Tiles from upto more es
Tiles-more from upto written more [] le t = t
Tiles-more from upto written more (command_event at id input cursor ∷ es) le (c, t) =
    (omega arith, Tiles-more from upto written more es le t)
Tiles-more from upto written more (output_event at start end bytes ∷ es) le (a, b, c, t) =
    (a, b, c, Tiles-more end upto written more es le t)
Tiles-more from upto written more (control_event at key ∷ es) le t =
    Tiles-more from upto written more es le t
Tiles-more from upto written more (state_change_event at old new ∷ es) le t =
    Tiles-more from upto written more es le t

pub TilesFrom-more :
    (upto written more : ℕ) (es : List TimelineEvent)
    → written ≤ more
    → TilesFrom upto written es
    → TilesFrom upto more es
TilesFrom-more upto written more es le (from, t) = (from, Tiles-more from upto written more es le t)

-- Events behind tiled ones.
Tiles-append :
    (from upto to written : ℕ) (es fs : List TimelineEvent)
    → Tiles from upto written es
    → Tiles upto to written fs
    → Tiles from to written (es ++ fs)
Tiles-append from upto to written [] fs t u = rw t u
Tiles-append from upto to written (command_event at id input cursor ∷ es) fs (c, t) u =
    (c, Tiles-append from upto to written es fs t u)
Tiles-append from upto to written (output_event at start end bytes ∷ es) fs (a, b, c, t) u =
    (a, b, c, Tiles-append end upto to written es fs t u)
Tiles-append from upto to written (control_event at key ∷ es) fs t u =
    Tiles-append from upto to written es fs t u
Tiles-append from upto to written (state_change_event at old new ∷ es) fs t u =
    Tiles-append from upto to written es fs t u

pub push-TilesFrom :
    (upto to written : ℕ) (t : Timeline) (e : TimelineEvent)
    → TilesFrom upto written t.events
    → Tiles upto to written (e ∷ [])
    → TilesFrom to written (push t e).events
unfolding push
push-TilesFrom upto to written t e (from, tiles) one =
    elim (Bool-cases (leb t.max_events (length t.events))) [
      | inl full ↦ rw full (
          let (later, left) = TilesFrom-drop upto written t.events (from, tiles) in
          (later, Tiles-append later upto to written (drop 1 t.events) (e ∷ []) left one))
      | inr room ↦ rw room (from, Tiles-append from upto to written t.events (e ∷ []) tiles one)
    ]
