-- ===== src/Sessions/Reaper.antt =====
-- src/application/sessions.rs: the reaper of idle sessions.
use term_bridge.Prelude.{
  ◌≡◌, ◌≢◌, refl, sym, ◌∙◌, ap, ℕ, ◌-◌, ◌≤◌, Bool, Bool-cases, true, false, Option, none, some,
  List, [], ◌∷◌, if◌then◌else◌, leb→le, le→leb, inl, inr, ◌⊎◌, some_inj, arith,
}
use term_bridge.Text.{Text, eq_text}
use term_bridge.Table.{
  lookup, remove, eq_text-eq, eq_text-false, lookup-remove, lookup-remove_other,
}
use term_bridge.Session.{Clock, Session, Done, is_idle, close}
use term_bridge.Provider.{Result}
use term_bridge.Sessions.Fresh.{NoNewKeys, NoNewKeys-remove}

abbrev pub idle_reaper_interval_secs : ℕ
idle_reaper_interval_secs = 30

abbrev pub idle_timeout_secs : ℕ
idle_timeout_secs = 1800

-- The ids of the idle sessions.
unfoldable pub idle_ids : Clock → ℕ → List (Text × Session) → List Text
idle_ids now timeout [] = []
idle_ids now timeout ((id, session) ∷ rows) =
    let rest = idle_ids now timeout rows in if is_idle session now timeout then id ∷ rest else rest

-- The second look, at a later time.
abbrev pub still_idle : Clock → ℕ → Option Session → Bool
still_idle later timeout none = false
still_idle later timeout (some session) = is_idle session later timeout

-- The sessions that are left, and those taken out of the map, as their close leaves them; `replies`
-- are those of the handles.
abbrev pub Reaped : Type 0
Reaped = List (Text × Session) × List Done

abbrev close_too : Option Session → Clock → (Text → Result Unit) → Reaped → Reaped
close_too none later replies (rows, closed) = (rows, closed)
close_too (some session) later replies (rows, closed) =
    (rows, close session later later (replies session.id) ∷ closed)

unfoldable pub reap_ids :
    Clock → ℕ → (Text → Result Unit) → List Text → List (Text × Session) → Reaped
reap_ids later timeout replies [] rows = (rows, [])
reap_ids later timeout replies (id ∷ ids) rows =
    let rest = reap_ids later timeout replies ids (remove id rows) in
    let skipped = reap_ids later timeout replies ids rows in
    if still_idle later timeout (lookup id rows)
    then close_too (lookup id rows) later replies rest
    else skipped

unfoldable pub reap_idle : Clock → Clock → ℕ → (Text → Result Unit) → List (Text × Session) → Reaped
unfolding idle_ids reap_ids
reap_idle now later timeout replies rows =
    reap_ids later timeout replies (idle_ids now timeout rows) rows

close_too-rows :
    (o : Option Session) (later : Clock) (replies : Text → Result Unit) (reaped : Reaped)
    → (close_too o later replies reaped).0 ≡ reaped.0
close_too-rows none later replies reaped = refl
close_too-rows (some session) later replies reaped = refl

-- One session taken.
taken_step :
    (later : Clock) (timeout : ℕ) (replies : Text → Result Unit) (x : Text) (ids : List Text)
    → (rows : List (Text × Session)) → still_idle later timeout (lookup x rows) ≡ true
    → (reap_ids later timeout replies (x ∷ ids) rows).0
      ≡ (reap_ids later timeout replies ids (remove x rows)).0
unfolding reap_ids
taken_step later timeout replies x ids rows taken = rw taken (
    close_too-rows (lookup x rows) later replies
      (reap_ids later timeout replies ids (remove x rows)))

-- A session that is active at the second look stays.
reap_ids-keeps :
    (later : Clock) (timeout : ℕ) (replies : Text → Result Unit) (ids : List Text)
    (rows : List (Text × Session)) (id : Text)
    → (session : Session) → lookup id rows ≡ some session
    → is_idle session later timeout ≡ false
    → lookup id (reap_ids later timeout replies ids rows).0 ≡ some session
unfolding reap_ids
reap_ids-keeps later timeout replies [] rows id session h active = h
reap_ids-keeps later timeout replies (x ∷ ids) rows id session h active =
    elim (Bool-cases (still_idle later timeout (lookup x rows))) [
      | inr skipped ↦ rw skipped (reap_ids-keeps later timeout replies ids rows id session h active)
      | inl taken ↦ rw (taken_step later timeout replies x ids rows taken) (
          reap_ids-keeps later timeout replies ids (remove x rows) id session
            (lookup-remove_other x id rows (differs taken) ∙ h) active)
    ]
  where
    differs : still_idle later timeout (lookup x rows) ≡ true → id ≢ x
    differs taken e = cc (rw (← e, h) at taken, active)

pub reap_ids-NoNewKeys :
    (later : Clock) (timeout : ℕ) (replies : Text → Result Unit) (ids : List Text)
    (rows : List (Text × Session))
    → NoNewKeys rows (reap_ids later timeout replies ids rows).0
unfolding reap_ids
reap_ids-NoNewKeys later timeout replies [] rows k gone = gone
reap_ids-NoNewKeys later timeout replies (x ∷ ids) rows k gone =
    elim (Bool-cases (still_idle later timeout (lookup x rows))) [
      | inr skipped ↦ rw skipped (reap_ids-NoNewKeys later timeout replies ids rows k gone)
      | inl taken ↦ rw (taken_step later timeout replies x ids rows taken) (
          reap_ids-NoNewKeys later timeout replies ids (remove x rows) k
            (NoNewKeys-remove rows x k gone))
    ]

-- What is still there was there before.
reap_ids-old :
    (later : Clock) (timeout : ℕ) (replies : Text → Result Unit) (ids : List Text)
    (rows : List (Text × Session)) (id : Text)
    → (session : Session) → lookup id (reap_ids later timeout replies ids rows).0 ≡ some session
    → lookup id rows ≡ some session
unfolding reap_ids
reap_ids-old later timeout replies [] rows id session h = h
reap_ids-old later timeout replies (x ∷ ids) rows id session h =
    elim (Bool-cases (still_idle later timeout (lookup x rows))) [
      | inr skipped ↦
          reap_ids-old later timeout replies ids rows id session (rw (reap_ids, skipped) at h)
      | inl taken ↦ removed (
          reap_ids-old later timeout replies ids (remove x rows) id session
            (rw (taken_step later timeout replies x ids rows taken) at h))
    ]
  where
    removed : lookup id (remove x rows) ≡ some session → lookup id rows ≡ some session
    removed left = elim (Bool-cases (eq_text id x)) [
      | inl same ↦ cc (eq_text-eq id x same, left, lookup-remove x rows)
      | inr differ ↦ sym (lookup-remove_other x id rows (eq_text-false id x differ)) ∙ left
    ]

abbrev Among : Text → List Text → Type 0
Among id [] = ⊥
Among id (x ∷ ids) = (id ≡ x) ⊎ Among id ids

listed_if_idle :
    (now : Clock) (timeout : ℕ) (rows : List (Text × Session)) (id : Text) (session : Session)
    → lookup id rows ≡ some session
    → is_idle session now timeout ≡ true
    → Among id (idle_ids now timeout rows)
unfolding idle_ids
listed_if_idle now timeout [] id session h idle = cc
listed_if_idle now timeout ((k, a) ∷ rows) id session h idle = elim (Bool-cases (eq_text id k)) [
  | inl same ↦
      let here : a ≡ session = some_inj (rw same at h) in
      rw (rw (← here) at idle) (inl (eq_text-eq id k same))
  | inr differ ↦
      let later : Among id (idle_ids now timeout rows) =
        listed_if_idle now timeout rows id session (rw differ at h) idle in
      elim (Bool-cases (is_idle a now timeout)) [
        | inl also ↦ rw also (inr later)
        | inr active ↦ rw active later
      ]
]

reap_ids-takes :
    (later : Clock) (timeout : ℕ) (replies : Text → Result Unit) (ids : List Text)
    (rows : List (Text × Session)) (id : Text)
    → (session : Session) → lookup id rows ≡ some session
    → is_idle session later timeout ≡ true
    → Among id ids
    → lookup id (reap_ids later timeout replies ids rows).0 ≡ none
unfolding reap_ids
reap_ids-takes later timeout replies [] rows id session h idle among = elim among [ ]
reap_ids-takes later timeout replies (x ∷ ids) rows id session h idle among =
    elim (Bool-cases (eq_text id x)) [
      | inl same ↦ rw (taken_step later timeout replies x ids rows (taken same)) (
          reap_ids-NoNewKeys later timeout replies ids (remove x rows) id (
            ap (λ key. lookup id (remove key rows)) (sym (eq_text-eq id x same))
            ∙ lookup-remove id rows))
      | inr differ ↦ elim (Bool-cases (still_idle later timeout (lookup x rows))) [
        | inl also ↦ rw (taken_step later timeout replies x ids rows also) (
            reap_ids-takes later timeout replies ids (remove x rows) id session
              (lookup-remove_other x id rows (eq_text-false id x differ) ∙ h) idle
              (behind differ among))
        | inr active ↦
            rw active (
              reap_ids-takes later timeout replies ids rows id session h idle (behind differ among))
      ]
    ]
  where
    taken : eq_text id x ≡ true → still_idle later timeout (lookup x rows) ≡ true
    taken same = rw (← eq_text-eq id x same, h) idle

    behind : eq_text id x ≡ false → (id ≡ x) ⊎ Among id ids → Among id ids
    behind differ (inl e) = absurd (eq_text-false id x differ e)
    behind differ (inr m) = m

stays_idle :
    (session : Session) (now later : Clock) (timeout : ℕ)
    → now.secs ≤ later.secs
    → is_idle session now timeout ≡ true
    → is_idle session later timeout ≡ true
unfolding is_idle
stays_idle session now later timeout le idle =
    le→leb timeout (later.secs - session.last_activity)
      (omega (arith, leb→le timeout (now.secs - session.last_activity) idle))

-- A run of the reaper with no other call between leaves a session under its id only if that was
-- there before and not idle at the first look, and keeps one that is not idle at the second, no
-- earlier look.
pub reap_idle-lookup :
    (now later : Clock) (timeout : ℕ) (replies : Text → Result Unit) (rows : List (Text × Session))
    → (id : Text) (session : Session) → now.secs ≤ later.secs
    → (lookup id (reap_idle now later timeout replies rows).0 ≡ some session
        → (lookup id rows ≡ some session) × (is_idle session now timeout ≡ false))
      × (lookup id rows ≡ some session
          → is_idle session later timeout ≡ false
          → lookup id (reap_idle now later timeout replies rows).0 ≡ some session)
unfolding reap_idle
reap_idle-lookup now later timeout replies rows id session le = (
  (λ left.
      let before =
        reap_ids-old later timeout replies (idle_ids now timeout rows) rows id session left in
      (
        before,
        elim (Bool-cases (is_idle session now timeout)) [
          | inr active ↦ active
          | inl idle ↦ cc (
            left,
            reap_ids-takes later timeout replies (idle_ids now timeout rows) rows id session before
                (stays_idle session now later timeout le idle)
                (listed_if_idle now timeout rows id session before idle),
          )
        ],
      )),
  (λ h active.
      reap_ids-keeps later timeout replies (idle_ids now timeout rows) rows id session h active),
)
