-- ===== src/Engine/Paging.antt =====
-- Reading page after page from a cursor, with the control sequences stripped.
use term_bridge.Prelude.{
  ℕ, ◌+◌, ◌≤◌, ◌≡◌, ◌⊎◌, inl, inr, refl, sym, ap, ◌∙◌, true, false, not, ◌&&◌, ◌||◌, none, some,
  List, [], ◌∷◌, ◌++◌, length, drop, arith, Bool-cases, append_assoc, ◌==◌, le→leb, gt→leb,
  length-take, length-drop,
}
use native.Mathlib.Decide.{dec_le}
use term_bridge.Ring.{read_since, read_since_max, is_truncated}
use term_bridge.Ring.History.{Holds}
use term_bridge.Ring.Read.{earliest, begins, page}
use term_bridge.Ring.Pages.{
  ServesPage, read_since_max-ServesPage, page-then-rest, is_truncated-Holds,
}
use term_bridge.Ansi.{StripPageResult, strip_page, strip_control_sequences}
use term_bridge.Ansi.Stream.{Smooth, strip_page-resumes}
use term_bridge.Engine.Peeking.{read_since_mode-keeps}
use term_bridge.Engine.{
  OutputEngine, StripCarry, ReadOutputParams, ReadOutputResult, read_since_mode, strip_since_page,
}

-- A request for at most `m` bytes from `c`, stripped.
abbrev pub page_params : ℕ → ℕ → ReadOutputParams
page_params c m = record {
  wait_for = none;
  tail_lines = none;
  since_cursor = some c;
  max_bytes = some m;
  context_lines = none;
  strip_ansi = true;
}

-- The carry goes on at `c`: nothing was stripped yet, or the last page ended there.
abbrev pub GoesOn : StripCarry → ℕ → Type 0
GoesOn carry c = (carry.armed ≡ false) ⊎ (carry.next_cursor ≡ c)

-- The engine, and the cursor, after one page.
abbrev pub after_page : OutputEngine → ℕ → ℕ → OutputEngine
after_page e c m = (read_since_mode e (page_params c m) c).0

abbrev pub page_result : OutputEngine → ℕ → ℕ → ReadOutputResult
page_result e c m = (read_since_mode e (page_params c m) c).1

-- The stripped texts of pages of at most these sizes, each from where the last one ended.
pub read_pages : OutputEngine → ℕ → List ℕ → List ℕ × OutputEngine × ℕ
read_pages e c [] = ([], e, c)
read_pages e c (m ∷ ms) =
    let r = page_result e c m in
    let (text, e', c') = read_pages (after_page e c m) r.cursor ms in (r.output ++ text, e', c')

-- No page on the way holds back an overlong sequence, or one that follows an ESC.
abbrev pub PagesSmooth : OutputEngine → ℕ → List ℕ → Type 0
PagesSmooth e c [] = Unit
PagesSmooth e c (m ∷ ms) =
    Smooth (e.strip_carry.pending ++ (read_since_max e.buffer c m).output)
    × PagesSmooth (after_page e c m) (page_result e c m).cursor ms

module _ (e : OutputEngine) (hist : List ℕ) (c m : ℕ) (holds : Holds e.buffer hist)
    (old : earliest e.buffer.size hist ≤ c) (le : c ≤ length hist)
    (goes_on : GoesOn e.strip_carry c) where
  in_order :
      (not (is_truncated e.buffer c) && (not e.strip_carry.armed || e.strip_carry.next_cursor == c))
      ≡ true
  in_order = elim (Bool-cases (is_truncated e.buffer c)) [
    | inl t ↦ absurd (omega (arith, (is_truncated-Holds e.buffer hist holds c).0 t))
    | inr f ↦ rw f (continues goes_on)
  ]
    where
      continues :
          GoesOn e.strip_carry c
          → (true && (not e.strip_carry.armed || e.strip_carry.next_cursor == c)) ≡ true
      continues (inl a) = rw a refl
      continues (inr n) = ground arith

  abbrev raw : List ℕ
  raw = (read_since_max e.buffer c m).output

  abbrev stripped : StripPageResult
  stripped = strip_page raw e.strip_carry.pending

  page_text : (page_result e c m).output ≡ stripped.text
  unfolding read_since_mode strip_since_page
  page_text = rw in_order refl

  page_carry : (after_page e c m).strip_carry ≡ record {
    armed = true;
    next_cursor = (read_since_max e.buffer c m).new_cursor;
    pending = stripped.trailing;
  }
  unfolding read_since_mode strip_since_page
  page_carry = rw (in_order, after_page) refl

  page_buffer : (after_page e c m).buffer ≡ e.buffer
  page_buffer = (read_since_mode-keeps e (page_params c m) c).buffer

  page_cursor : (page_result e c m).cursor ≡ (read_since_max e.buffer c m).new_cursor
  unfolding read_since_mode
  page_cursor = refl

  -- The next cursor is kept too.
  next_kept :
      (c ≤ (read_since_max e.buffer c m).new_cursor)
      × ((read_since_max e.buffer c m).new_cursor ≤ length hist)
  next_kept = elim (dec_le (length hist) c) [
    | yes past ↦
        within (length hist) (s.new_cursor ∙ rw (le→leb (length hist) c past) refl) (omega arith)
          (omega arith)
    | no less ↦
        within (begins e.buffer.size hist c + length (page e.buffer.size hist c m))
          (s.new_cursor ∙ rw (gt→leb (length hist) c (omega arith)) refl) (omega arith)
          (omega (
            arith,
            length-take m (drop (begins e.buffer.size hist c) hist),
            length-drop (begins e.buffer.size hist c) hist,
          ))
  ]
    where
      s : ServesPage e.buffer.size hist c m e.buffer
      s = read_since_max-ServesPage e.buffer hist c m holds

      within :
          (n : ℕ)
          → (read_since_max e.buffer c m).new_cursor ≡ n
          → c ≤ n
          → n ≤ length hist
          → (c ≤ (read_since_max e.buffer c m).new_cursor)
            × ((read_since_max e.buffer c m).new_cursor ≤ length hist)
      within n same a b = (omega arith, omega arith)

  -- The text of the page, and then of what it holds back and of the rest.
  page_step :
      Smooth (e.strip_carry.pending ++ raw)
      → (page_result e c m).output
          ++ strip_control_sequences (
              (after_page e c m).strip_carry.pending
              ++ read_since e.buffer (page_result e c m).cursor)
        ≡ strip_control_sequences (e.strip_carry.pending ++ read_since e.buffer c)
  page_step smooth =
      rw (page_text, page_carry, page_cursor)
        (strip_page-resumes raw e.strip_carry.pending
            (read_since e.buffer (read_since_max e.buffer c m).new_cursor) smooth
          ∙ ap (λ l. strip_control_sequences (e.strip_carry.pending ++ l))
              (page-then-rest e.buffer hist c m holds))

  next-GoesOn : GoesOn (after_page e c m).strip_carry (page_result e c m).cursor
  next-GoesOn = inr (ap (λ (k : StripCarry). k.next_cursor) page_carry ∙ sym page_cursor)

  next_Holds : Holds (after_page e c m).buffer hist
  next_Holds = rw page_buffer holds

  next_old : earliest (after_page e c m).buffer.size hist ≤ (page_result e c m).cursor
  next_old = rw (page_buffer, page_cursor) (omega (arith, next_kept))

  next_le : (page_result e c m).cursor ≤ length hist
  next_le = rw page_cursor next_kept.1

-- Page after page read from a kept cursor with the control sequences stripped, the texts of the
-- pages and the text of what is held back or unread are the text of all that was unread at the
-- start, where no page holds back an overlong sequence or one behind an ESC.
pub read_pages-stream :
    (e : OutputEngine) (hist : List ℕ) (c : ℕ) (ms : List ℕ)
    → Holds e.buffer hist
    → earliest e.buffer.size hist ≤ c
    → c ≤ length hist
    → GoesOn e.strip_carry c
    → PagesSmooth e c ms
    → let (text, e', c') = read_pages e c ms in
      text ++ strip_control_sequences (e'.strip_carry.pending ++ read_since e.buffer c')
      ≡ strip_control_sequences (e.strip_carry.pending ++ read_since e.buffer c)
unfolding read_pages
read_pages-stream e hist c [] holds old le goes_on smooth = refl
read_pages-stream e hist c (m ∷ ms) holds old le goes_on smooth =
    append_assoc (page_result e c m).output later.0
      (strip_control_sequences (later.1.strip_carry.pending ++ read_since e.buffer later.2))
    ∙ (ap (λ l. (page_result e c m).output ++ l)
          (rw (page_buffer e hist c m holds old le goes_on) at (
            read_pages-stream (after_page e c m) hist (page_result e c m).cursor ms
              (next_Holds e hist c m holds old le goes_on)
              (next_old e hist c m holds old le goes_on) (next_le e hist c m holds old le goes_on)
              (next-GoesOn e hist c m holds old le goes_on) smooth.1))
        ∙ page_step e hist c m holds old le goes_on smooth.0)
  where
    later : List ℕ × OutputEngine × ℕ
    later = read_pages (after_page e c m) (page_result e c m).cursor ms
