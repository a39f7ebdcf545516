-- ===== src/Engine/Writes.antt =====
-- A ring under any sequence of writes.
use term_bridge.Prelude.{
  ℕ, ◌+◌, ◌<◌, List, [], ◌∷◌, ◌++◌, length, arith, append-nil, append_assoc, length-append,
}
use term_bridge.Ring.{BufferInner, new, write, u64}
use term_bridge.Ring.History.{Holds, write-Holds, new_raw-Holds}
use term_bridge.Engine.{write_all}

abbrev pub joined : List (List ℕ) → List ℕ
joined [] = []
joined (d ∷ ds) = d ++ joined ds

pub write_all-Holds :
    (g : BufferInner) (hist : List ℕ) (ds : List (List ℕ))
    → Holds g hist
    → length hist + length (joined ds) < u64
    → Holds (write_all g ds) (hist ++ joined ds)
unfolding write_all
write_all-Holds g hist [] h fits = rw append-nil h
write_all-Holds g hist (d ∷ ds) h fits = rw (append_assoc hist d (joined ds)) at (
    write_all-Holds (write g d) (hist ++ d) ds
      (write-Holds g hist d h (omega (arith, length-append d (joined ds))))
      (omega (arith, length-append d (joined ds), length-append hist d)))

-- A new ring of any requested size, after any sequence of writes of fewer than 2 ^ 64 bytes
-- together, holds their bytes.
pub new-write_all-Holds :
    (size : ℕ) (ds : List (List ℕ))
    → length (joined ds) < u64
    → Holds (write_all (new size) ds) (joined ds)
unfolding new
new-write_all-Holds size ds fits =
    write_all-Holds (new size) [] ds (new_raw-Holds _ (ground arith)) (omega arith)
