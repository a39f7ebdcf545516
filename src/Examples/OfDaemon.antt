-- ===== src/Examples/OfDaemon.antt =====
-- A session of the daemon with a small ring.
use term_bridge.Prelude.{
  ℕ, ◌+◌, ◌-◌, ◌%◌, ◌≡◌, refl, false, Option, none, List, [], ◌∷◌, length, drop, arith,
}
use term_bridge.Text.{codes}
use term_bridge.Ring.{BufferInner, u64}
use term_bridge.Ring.History.{Holds}
use term_bridge.Provider.{default_pty_size}
use term_bridge.AgentBuffer.{read_since}
use term_bridge.AgentSession.{
  created, attached, detached, Session, ok, attach, detach, eio, pty_read_loop,
}
use term_bridge.AgentSession.Life.{Op, attaches, detaches, reads, Alternate, run, run-Alternate}
use term_bridge.AgentSession.Resume.{Chunk, joined, as_reads, attach-resumes}

abbrev small_ring : BufferInner
small_ring = record { buf = 0 ∷ (0 ∷ []); size = 2; head = 0; written = 0 }

small_ring-Holds : Holds small_ring []
small_ring-Holds = record {
  nonempty = omega arith;
  head_in = omega arith;
  buf_len = refl;
  counted = refl;
  window = refl;
  unfull = λ _. refl;
  just_full = λ _. refl;
}

abbrev started : Session
started = record {
  id = codes "sess_00000001";
  name = none;
  state = created;
  buffer = small_ring;
  created_at = 0;
  last_activity_at = 0;
  pty_size = default_pty_size;
  notified = false;
  terminal = none;
  pump_epoch = 0;
}

abbrev no_child : ℕ → Option ℕ
no_child attempt = none

abbrev calls : List Op
calls =
    attaches 0 ∷ (attaches 0 ∷ (detaches ∷ (attaches 0 ∷ (reads no_child eio 7 ∷ (detaches ∷ [])))))

run-Alternate_example : Alternate false (run started calls).1
run-Alternate_example = run-Alternate false started calls refl

abbrev held : Session
held = record started { state = attached }

abbrev chunks : List (Chunk × ℕ)
chunks = ((1, 2 ∷ []), 5) ∷ (((3, []), 6) ∷ [])

abbrev back : Session
back = (pty_read_loop (detach held).0 no_child (as_reads chunks)).0

attach-resumes_example :
    ((detach held).1 ≡ ok tt)
    × (back.state ≡ detached)
    × ((attach back 0).1 ≡ ok (read_since back.buffer 0))
    × ((read_since back.buffer 0).data_read
        ≡ drop (length (joined chunks) - back.buffer.size) (joined chunks))
    × ((attach back 0).0.state ≡ attached)
    × ((attach back 0).0.pump_epoch ≡ (held.pump_epoch + 1) % u64)
attach-resumes_example =
    attach-resumes held no_child [] chunks refl small_ring-Holds (omega arith) back refl
