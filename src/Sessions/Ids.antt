-- ===== src/Sessions/Ids.antt =====
-- src/application/sessions.rs: what comes of opening a session, and the ids over any run of the
-- manager.
use term_bridge.Prelude.{
  ◌≡◌, ◌≢◌, refl, ℕ, sym, ◌∙◌, ◌+◌, ◌≤◌, ◌<◌, Bool, Option, none, some, List, [], ◌∷◌, length,
  arith,
}
use term_bridge.Text.{Text}
use term_bridge.Table.{lookup}
use term_bridge.Ring.{u64}
use term_bridge.Provider.{PtySize, Result, ok, err}
use term_bridge.Session.{HandleKind, Clock, new_session}
use term_bridge.Sessions.{SessionManager, next_session_id}
use term_bridge.Sessions.Opening.{
  Environment, Opened, add_session, open_session, attach_remote_session,
}
use term_bridge.Engine.Lines.{Match}
use term_bridge.Sessions.Fresh.{IsFresh, IsFresh-kept, add_session-Adds}
use term_bridge.Sessions.Requests.{Request, serve}
use term_bridge.Sessions.Keeping.{serve-Keeps}
use term_bridge.Sessions.Added.{
  Opens, failed, added, as_opened, open_session-Opens, attach_remote_session-Opens,
}

-- The requests that give an id, and the others.
pub data Event : Type 0 where
  opens : Environment → Clock → Text → Option PtySize → Option Bool → Option Text → Event
  attaches : Environment → Clock → (host_alias remote_session_id : Text) → Event
  requests : Request → Event

abbrev pub given : Result Text → List Text
given (ok id) = id ∷ []
given (err e) = []

module _ {R : Type 0} (compile : List ℕ → Option R) (find : R → List ℕ → Option Match) where
  abbrev pub step : SessionManager → Event → SessionManager × List Text
  step manager (attaches env now host_alias remote_id) =
      let (manager', r) = attach_remote_session manager env now host_alias remote_id in
      (manager', given r)
  step manager (opens env now host_alias size explicit name) =
      let opened = open_session manager env now host_alias size explicit name in
      (opened.manager, given opened.result)
  step manager (requests r) = (serve compile find manager r, [])

  unfoldable pub run : SessionManager → List Event → SessionManager
  run manager [] = manager
  run manager (e ∷ es) = run (step manager e).0 es

-- The ids that are still to be given are free, and at most one is given.
record Steps (manager manager' : SessionManager) : Type 0 where
  free : IsFresh manager'
  counted : manager'.counter ≤ manager.counter + 1

counter-add_session :
    (manager : SessionManager) (now : Clock) (host : Text) (size : PtySize) (handle : HandleKind)
    → (add_session manager now host size handle).0.counter ≤ manager.counter + 1
unfolding next_session_id
counter-add_session manager now host size handle = omega arith

Opens-Steps :
    (manager : SessionManager) (now : Clock) (opened : Opened)
    → IsFresh manager
    → manager.counter + 1 < u64
    → Opens manager now opened
    → Steps manager opened.manager
Opens-Steps manager now opened h room (failed e r m) =
    rw m (record { free = h; counted = omega arith })
Opens-Steps manager now opened h room (added host size handle r m) = rw m (record {
  free = (add_session-Adds manager now host size handle h room).fresh;
  counted = counter-add_session manager now host size handle;
})

module _ {R : Type 0} (compile : List ℕ → Option R) (find : R → List ℕ → Option Match) where
  step-Steps :
      (manager : SessionManager) (e : Event)
      → IsFresh manager
      → manager.counter + 1 < u64
      → Steps manager (step compile find manager e).0
  step-Steps manager (requests r) h room =
      let kept = serve-Keeps compile find manager r in
      record {
        free = IsFresh-kept manager (serve compile find manager r) kept.counter kept.keys h;
        counted = omega (arith, kept.counter);
      }
  step-Steps manager (opens env now host_alias size explicit name) h room =
      Opens-Steps manager now _ h room
        (open_session-Opens manager env now host_alias size explicit name)
  step-Steps manager (attaches env now host_alias remote_id) h room =
      Opens-Steps manager now
        (as_opened (attach_remote_session manager env now host_alias remote_id)) h room
        (attach_remote_session-Opens manager env now host_alias remote_id)

  run-IsFresh :
      (manager : SessionManager) (es : List Event)
      → IsFresh manager
      → manager.counter + length es < u64
      → IsFresh (run compile find manager es)
  unfolding run
  run-IsFresh manager [] h room = h
  run-IsFresh manager (e ∷ es) h room =
      let s = step-Steps manager e h (omega arith) in
      run-IsFresh (step compile find manager e).0 es s.free (omega (arith, s.counted))

ok_inj : {a b : Text} → ok a ≡ ok b → a ≡ b
ok_inj h = cc

IsFresh-empty : (manager : SessionManager) → manager.sessions ≡ [] → IsFresh manager
unfolding IsFresh
IsFresh-empty manager e n le lt = rw e refl

-- The id of a new session is of no other, the session is there under it, and all others stay.
pub record IsAdded (before : SessionManager) (now : Clock) (after : SessionManager) (id : Text)
    : Type 0 where
  pub host : Text
  pub size : PtySize
  pub handle : HandleKind
  pub was_free : lookup id before.sessions ≡ none
  pub is_there : lookup id after.sessions ≡ some (new_session now id host size handle)
  pub others : (k : Text) → k ≢ id → lookup k after.sessions ≡ lookup k before.sessions

one_more :
    (manager : SessionManager) (now : Clock) (opened : Opened) (id : Text)
    → IsFresh manager
    → manager.counter + 1 < u64
    → opened.result ≡ ok id
    → Opens manager now opened
    → IsAdded manager now opened.manager id
one_more manager now opened id h room r (failed e q m) = cc
one_more manager now opened id h room r (added host size handle q m) =
    let adds = add_session-Adds manager now host size handle h room in
    let same : (add_session manager now host size handle).1 ≡ id = ok_inj (sym q ∙ r) in
    rw (m, ← same)
      (record {
        host = host;
        size = size;
        handle = handle;
        was_free = adds.is_new;
        is_there = adds.is_there;
        others = adds.others;
      })

module _ {R : Type 0} (compile : List ℕ → Option R) (find : R → List ℕ → Option Match) where
  counter-run :
      (manager : SessionManager) (es : List Event)
      → IsFresh manager
      → manager.counter + length es < u64
      → (run compile find manager es).counter ≤ manager.counter + length es
  unfolding run
  counter-run manager [] h room = omega arith
  counter-run manager (e ∷ es) h room =
      let s = step-Steps compile find manager e h (omega arith) in
      omega (
        arith,
        s.counted,
        counter-run (step compile find manager e).0 es s.free (omega (arith, s.counted)),
      )

  -- After any run, one after another, of openings, attachments, reconnections, reads and writes,
  -- detaches, closes, changes of size and mode, runs of the reaper, and turns and ends of read
  -- tasks on a manager without sessions, as long as the counter stays below 2 ^ 64, an opening
  -- that returns an id adds a new session under it, which was the id of none, and leaves the
  -- others as they were.
  pub open_session-IsAdded :
      (manager : SessionManager) (es : List Event) (env : Environment) (now : Clock)
      → (host_alias : Text) (size : Option PtySize) (explicit : Option Bool) (name : Option Text)
      → (id : Text) → manager.sessions ≡ []
      → manager.counter + length es + 1 < u64
      → (open_session (run compile find manager es) env now host_alias size explicit name).result
        ≡ ok id
      → IsAdded
          (run compile find manager es)
          now
          (open_session (run compile find manager es) env now host_alias size explicit name).manager
          id
  open_session-IsAdded manager es env now host_alias size explicit name id e room r =
      let start : IsFresh manager = IsFresh-empty manager e in
      let counted = counter-run manager es start (omega arith) in
      one_more (run compile find manager es) now
        (open_session (run compile find manager es) env now host_alias size explicit name) id
        (run-IsFresh compile find manager es start (omega arith)) (omega (arith, counted)) r
        (open_session-Opens (run compile find manager es) env now host_alias size explicit name)

  -- The same of an attachment.
  pub attach_remote_session-IsAdded :
      (manager : SessionManager) (es : List Event) (env : Environment) (now : Clock)
      → (host_alias remote_id id : Text) → manager.sessions ≡ []
      → manager.counter + length es + 1 < u64
      → (attach_remote_session (run compile find manager es) env now host_alias remote_id).1 ≡ ok id
      → IsAdded
          (run compile find manager es)
          now
          (attach_remote_session (run compile find manager es) env now host_alias remote_id).0
          id
  attach_remote_session-IsAdded manager es env now host_alias remote_id id e room r =
      let start : IsFresh manager = IsFresh-empty manager e in
      let counted = counter-run manager es start (omega arith) in
      one_more (run compile find manager es) now
        (as_opened
          (attach_remote_session (run compile find manager es) env now host_alias remote_id))
        id (run-IsFresh compile find manager es start (omega arith)) (omega (arith, counted)) r
        (attach_remote_session-Opens (run compile find manager es) env now host_alias remote_id)
