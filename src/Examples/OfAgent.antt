-- ===== src/Examples/OfAgent.antt =====
-- A ring of the daemon, polled by a client.
use term_bridge.Prelude.{ℕ, refl, List, [], ◌∷◌, arith}
use term_bridge.Ring.{BufferInner}
use term_bridge.Ring.History.{Holds}
use term_bridge.AgentBuffer.{new, write}
use term_bridge.AgentBuffer.Serving.{Serves, read_since-Serves, agent_Holds}

abbrev empty_ring : BufferInner
empty_ring = record { buf = 0 ∷ (0 ∷ []); size = 2; head = 0; written = 0 }

empty_ring-Holds : Holds empty_ring []
empty_ring-Holds = record {
  nonempty = omega arith;
  head_in = omega arith;
  buf_len = refl;
  counted = refl;
  window = refl;
  unfull = λ _. refl;
  just_full = λ _. refl;
}

abbrev typed_bytes : List ℕ
typed_bytes = 1 ∷ (2 ∷ (3 ∷ []))

typed_ring-Holds : Holds (write empty_ring typed_bytes) typed_bytes
typed_ring-Holds = (agent_Holds 0 empty_ring [] typed_bytes empty_ring-Holds (omega arith)).1

agent_Holds_example : Holds (new 5) [] × Holds (write empty_ring typed_bytes) typed_bytes
agent_Holds_example = agent_Holds 5 empty_ring [] typed_bytes empty_ring-Holds (omega arith)

read_since-Serves_example : Serves (write empty_ring typed_bytes) typed_bytes 0
read_since-Serves_example =
    read_since-Serves (write empty_ring typed_bytes) typed_bytes 0 typed_ring-Holds
