-- ===== src/Examples/OfTimeline.antt =====
-- A timeline of two events.
use term_bridge.Prelude.{◌≡◌, max, some, List, [], ◌∷◌}
use term_bridge.Text.{codes}
use term_bridge.Timeline.{with_capacity, events}
use term_bridge.Timeline.Window.{
  Entry, command, output, control, record_all, whole_log, newest, record_all-events,
}

abbrev entries : List Entry
entries =
    command 5 (b'l' ∷ (b's' ∷ [])) 0
    ∷ (output 6 0 3 3 ∷ (output 7 3 3 0 ∷ (control 8 (codes "ctrl+c") ∷ [])))

record_all-events_example :
    events (record_all (with_capacity 2) entries) (some 1)
    ≡ newest 1 (newest (max 1 2) (whole_log 1 entries))
record_all-events_example = record_all-events 2 1 entries
