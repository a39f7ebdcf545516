-- ===== src/Sessions/Fresh.antt =====
-- src/application/sessions.rs: no id is given twice.
use term_bridge.Prelude.{
  ◌≡◌, ◌≢◌, refl, ap, ◌∙◌, ℕ, ◌+◌, ◌≤◌, ◌<◌, Bool-cases, none, some, List, ◌++◌, inl, inr, arith,
  append_split,
}
use term_bridge.Text.{Text, codes, eq_text}
use term_bridge.Decimal.{decimal, decimal_inj}
use term_bridge.Table.{
  lookup, insert, remove, eq_text-eq, eq_text-false, lookup-insert, lookup-insert_other,
  lookup-remove, lookup-remove_other,
}
use term_bridge.Ring.{u64}
use term_bridge.Provider.{PtySize}
use term_bridge.Session.{HandleKind, Clock, Session, new_session}
use term_bridge.Sessions.{SessionManager, next_session_id}
use term_bridge.Sessions.Opening.{add_session}

abbrev pub session_key : ℕ → Text
session_key n = codes "sess_" ++ decimal n

-- No session has an id that is still to be given.
unfoldable pub IsFresh : SessionManager → Type 0
IsFresh manager =
    (n : ℕ) → manager.counter ≤ n → n < u64 → lookup (session_key n) manager.sessions ≡ none

session_key_inj : (m n : ℕ) → m < u64 → n < u64 → session_key m ≡ session_key n → m ≡ n
session_key_inj m n hm hn e =
    decimal_inj m n (omega arith) (omega arith)
      (append_split (codes "sess_") (decimal m) (codes "sess_") (decimal n) e refl).1

-- A table in which no key is found that was not found before.
abbrev pub NoNewKeys : List (Text × Session) → List (Text × Session) → Type 0
NoNewKeys rows rows' = (k : Text) → lookup k rows ≡ none → lookup k rows' ≡ none

pub NoNewKeys-update :
    (rows : List (Text × Session)) (id : Text) (old new : Session)
    → lookup id rows ≡ some old
    → NoNewKeys rows (insert id new rows)
NoNewKeys-update rows id old new h k gone = elim (Bool-cases (eq_text k id)) [
  | inl same ↦ cc (eq_text-eq k id same, gone, h)
  | inr differ ↦ lookup-insert_other id k new rows (eq_text-false k id differ) ∙ gone
]

pub NoNewKeys-remove : (rows : List (Text × Session)) (id : Text) → NoNewKeys rows (remove id rows)
NoNewKeys-remove rows id k gone = elim (Bool-cases (eq_text k id)) [
  | inl same ↦
      ap (λ key. lookup key (remove id rows)) (eq_text-eq k id same) ∙ lookup-remove id rows
  | inr differ ↦ lookup-remove_other id k rows (eq_text-false k id differ) ∙ gone
]

pub IsFresh-kept :
    (manager manager' : SessionManager)
    → manager'.counter ≡ manager.counter
    → NoNewKeys manager.sessions manager'.sessions
    → IsFresh manager
    → IsFresh manager'
unfolding IsFresh
IsFresh-kept manager manager' e keys h n le lt = keys (session_key n) (h n (omega arith) lt)

module _ (manager : SessionManager) (now : Clock) (host : Text) (pty_size : PtySize)
    (handle : HandleKind) where
  -- What a new session changes: its id was not there, and the others stay.
  pub record Adds (added : SessionManager × Text) : Type 0 where
    pub is_new : lookup added.1 manager.sessions ≡ none
    pub is_there :
        lookup added.1 added.0.sessions ≡ some (new_session now added.1 host pty_size handle)
    pub others : (k : Text) → k ≢ added.1 → lookup k added.0.sessions ≡ lookup k manager.sessions
    pub fresh : IsFresh added.0

  pub add_session-Adds :
      IsFresh manager
      → manager.counter + 1 < u64
      → Adds (add_session manager now host pty_size handle)
  unfolding IsFresh next_session_id
  add_session-Adds h room = record {
    is_new = h manager.counter (omega arith) (omega arith);
    is_there = lookup-insert id session manager.sessions;
    others = λ k ne. lookup-insert_other id k session manager.sessions ne;
    fresh = λ n le lt.
        lookup-insert_other id (session_key n) session manager.sessions
          (λ e. absurd (omega (arith, session_key_inj n manager.counter lt (omega arith) e)))
        ∙ h n (omega arith) lt;
  }
    where
      id : Text
      id = session_key manager.counter

      session : Session
      session = new_session now id host pty_size handle
