-- ===== src/AgentSession/Resume.antt =====
-- agentd/src/session.rs and agentd/src/buffer.rs: a client that comes back to its session.
use term_bridge.Prelude.{
  ◌≡◌, refl, sym, ap, ◌∙◌, ℕ, ◌+◌, ◌-◌, ◌%◌, ◌<◌, Option, List, [], ◌∷◌, ◌++◌, length, drop,
  drop-append_ge, drop_at, arith, append-nil, append_assoc, length-append,
}
use term_bridge.Ring.{u64}
use term_bridge.Ring.History.{Holds}
use term_bridge.AgentBuffer.{read_since}
use term_bridge.AgentBuffer.Serving.{read_since-Serves, agent_Holds}
use term_bridge.AgentSession.{
  attached, detached, Session, Result, ok, notify_pump, attach, detach, PtyRead, bytes, read_turn,
  pty_read_loop,
}

-- Chunks that the PTY puts out, none of them empty.
abbrev pub Chunk : Type 0
Chunk = ℕ × List ℕ

abbrev pub chunk_bytes : Chunk → List ℕ
chunk_bytes (b, bs) = b ∷ bs

abbrev pub joined : List (Chunk × ℕ) → List ℕ
joined [] = []
joined ((chunk, now) ∷ chunks) = chunk_bytes chunk ++ joined chunks

abbrev pub as_reads : List (Chunk × ℕ) → List (PtyRead × ℕ)
as_reads [] = []
as_reads ((chunk, now) ∷ chunks) = (bytes (chunk_bytes chunk), now) ∷ as_reads chunks

-- The loop over chunks writes them and leaves the state and the epoch.
record Grown (s s' : Session) (hist : List ℕ) : Type 0 where
  holds : Holds s'.buffer hist
  same_state : s'.state ≡ s.state
  same_epoch : s'.pump_epoch ≡ s.pump_epoch

pty_read_loop-Grown :
    (s : Session) (try_reap : ℕ → Option ℕ) (hist : List ℕ) (chunks : List (Chunk × ℕ))
    → Holds s.buffer hist
    → length hist + length (joined chunks) < u64
    → Grown s (pty_read_loop s try_reap (as_reads chunks)).0 (hist ++ joined chunks)
unfolding pty_read_loop read_turn
pty_read_loop-Grown s try_reap hist [] h fits = record {
  holds = rw (append-nil hist) h;
  same_state = refl;
  same_epoch = refl;
}
pty_read_loop-Grown s try_reap hist (((b, bs), now) ∷ chunks) h fits =
    let d : List ℕ = b ∷ bs in
    let h' = (agent_Holds 0 s.buffer hist d h (omega (arith, length-append d (joined chunks)))).1 in
    let turned = (read_turn s try_reap (bytes d) now).0 in
    let grown =
      pty_read_loop-Grown turned try_reap (hist ++ d) chunks h'
        (omega (arith, length-append d (joined chunks), length-append hist d)) in
    record {
      holds = rw (append_assoc hist d (joined chunks)) at grown.holds;
      same_state = grown.same_state;
      same_epoch = grown.same_epoch;
    }

detach-attached :
    (s : Session)
    → s.state ≡ attached
    → detach s ≡ (notify_pump (record s { state = detached }), ok tt)
unfolding detach
detach-attached s e = rw (detach, e) refl

attach-detached :
    (s : Session) (c : ℕ)
    → s.state ≡ detached
    → ((attach s c).1 ≡ ok (read_since s.buffer c))
      × ((attach s c).0.state ≡ attached)
      × ((attach s c).0.pump_epoch ≡ (s.pump_epoch + 1) % u64)
unfolding attach
attach-detached s c e = rw (attach, e) (refl, refl, refl)

drop_behind : (m k : ℕ) (xs ys : List ℕ) → m ≡ length xs + k → drop m (xs ++ ys) ≡ drop k ys
drop_behind m k xs ys e =
    drop-append_ge m xs ys (omega arith) ∙ drop_at (m - length xs) k ys (omega arith)

-- A client that detached after it had seen all there was, and attaches again at the cursor where
-- it stopped, gets what the PTY has put out between, whatever the size of the chunks, or the
-- newest bytes of it that the ring holds, while fewer than 2 ^ 64 bytes are written; and the
-- epoch of the pumps goes on.
pub attach-resumes :
    (s : Session) (try_reap : ℕ → Option ℕ) (hist : List ℕ) (chunks : List (Chunk × ℕ))
    → s.state ≡ attached
    → Holds s.buffer hist
    → length hist + length (joined chunks) < u64
    → (back : Session) → (pty_read_loop (detach s).0 try_reap (as_reads chunks)).0 ≡ back
    → ((detach s).1 ≡ ok tt)
      × (back.state ≡ detached)
      × ((attach back (length hist)).1 ≡ ok (read_since back.buffer (length hist)))
      × ((read_since back.buffer (length hist)).data_read
          ≡ drop (length (joined chunks) - back.buffer.size) (joined chunks))
      × ((attach back (length hist)).0.state ≡ attached)
      × ((attach back (length hist)).0.pump_epoch ≡ (s.pump_epoch + 1) % u64)
unfolding detach attach
attach-resumes s try_reap hist chunks e h fits back loop =
    let left : Session = notify_pump (record s { state = detached }) in
    let gone : detach s ≡ (left, ok tt) = detach-attached s e in
    let came_back : (pty_read_loop left try_reap (as_reads chunks)).0 ≡ back =
      ap (λ (r : Session × Result Unit). (pty_read_loop r.0 try_reap (as_reads chunks)).0)
        (sym gone)
      ∙ loop in
    let grown : Grown left back (hist ++ joined chunks) =
      rw came_back at (pty_read_loop-Grown left try_reap hist chunks h fits) in
    let (answer, state, epoch) = attach-detached back (length hist) grown.same_state in
    let served =
      (read_since-Serves back.buffer (hist ++ joined chunks) (length hist) grown.holds).data_read in
    (
      ap (λ (r : Session × Result Unit). r.1) gone,
      grown.same_state,
      answer,
      served
          ∙ drop_behind _ (length (joined chunks) - back.buffer.size) hist (joined chunks)
              (omega (arith, length-append hist (joined chunks))),
      state,
      epoch ∙ ap (λ k. (k + 1) % u64) grown.same_epoch,
    )
