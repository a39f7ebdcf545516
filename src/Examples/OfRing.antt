-- ===== src/Examples/OfRing.antt =====
-- Rings of four bytes.
use term_bridge.Prelude.{ℕ, ◌<◌, ◌≡◌, refl, true, List, [], ◌∷◌, ◌++◌, arith}
use term_bridge.Ring.{BufferInner, new_raw, write, read_since, read_since_max}
use term_bridge.Ring.History.{Holds, new_raw-Holds, write-Holds}
use term_bridge.Ring.Pages.{ServesPage, read_since_max-ServesPage, page-then-rest, page-progress}

abbrev three : List ℕ
three = 97 ∷ (98 ∷ (99 ∷ []))

abbrev two : List ℕ
two = 100 ∷ (101 ∷ [])

abbrev first_ring : BufferInner
first_ring = write (new_raw 4) three

abbrev full_ring : BufferInner
full_ring = write first_ring two

first_ring-Holds : Holds first_ring three
first_ring-Holds = write-Holds (new_raw 4) [] three (new_raw-Holds 4 (omega arith)) (omega arith)

full_ring-Holds : Holds full_ring (three ++ two)
full_ring-Holds = write-Holds first_ring three two first_ring-Holds (omega arith)

full_ring-reads : read_since full_ring 0 ≡ 98 ∷ (99 ∷ (100 ∷ (101 ∷ [])))
unfolding read_since write new_raw
full_ring-reads = refl

write-Holds_example : Holds (write first_ring two) (three ++ two)
write-Holds_example = write-Holds first_ring three two first_ring-Holds (omega arith)

read_since_max-ServesPage_example : ServesPage full_ring.size (three ++ two) 0 2 full_ring
read_since_max-ServesPage_example =
    read_since_max-ServesPage full_ring (three ++ two) 0 2 full_ring-Holds

page-then-rest_example :
    (read_since_max full_ring 0 2).output
      ++ read_since full_ring (read_since_max full_ring 0 2).new_cursor
    ≡ read_since full_ring 0
page-then-rest_example = page-then-rest full_ring (three ++ two) 0 2 full_ring-Holds

page_has_more : (read_since_max full_ring 0 2).has_more ≡ true
unfolding read_since_max write new_raw
page_has_more = refl

page-progress_example : 0 < (read_since_max full_ring 0 2).new_cursor
page-progress_example =
    page-progress full_ring (three ++ two) 0 2 full_ring-Holds (omega arith) page_has_more
