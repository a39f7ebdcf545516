-- ===== src/Ansi/Stream.antt =====
-- A stream of pages stripped one after the other, as consecutive reads of an engine do it.
use term_bridge.Prelude.{
  ℕ, suc, ◌+◌, ◌-◌, ◌≤◌, ◌≡◌, refl, sym, ap, ◌∙◌, false, Option, none, some, List, [], ◌∷◌, ◌++◌,
  length, take, arith, ltb, append-nil, append_assoc, length-drop, length-append,
}
use term_bridge.Ansi.{
  esc, StripPageResult, strip_page, strip_page_inner, cut_page, max_pending_bytes,
  incomplete_trailing_start, strip_control_sequences, trailing_loop, map_suc, run_length,
}
use term_bridge.Ansi.Rest.{strip-lone}
use term_bridge.Ansi.Pages.{settled, held, ends_esc, trailing_loop-Resumes, round_text}
use term_bridge.Ansi.Text.{NoEsc, strip-plain}

-- The held-back sequence is short enough to be kept, and the ESC that begins it does not follow
-- another ESC.
pub record Smooth (full : List ℕ) : Type 0 where
  pub fits : length (held (incomplete_trailing_start full) full) ≤ max_pending_bytes
  pub apart : ends_esc (settled (incomplete_trailing_start full) full) ≡ false

cut_page_fits :
    (full : List ℕ) (o : Option ℕ)
    → length (held o full) ≤ max_pending_bytes
    → (cut_page full o).text ≡ strip_control_sequences (settled o full)
cut_page_fits full none h = refl
cut_page_fits full (some s) h = rw (short (omega (arith, length-drop s full))) refl
  where
    short : length full - s ≤ max_pending_bytes → ltb max_pending_bytes (length full - s) ≡ false
    short le = ground arith

cut_page-held :
    (full : List ℕ) (o : Option ℕ)
    → length (held o full) ≤ max_pending_bytes
    → (cut_page full o).trailing ≡ held o full
cut_page-held full none h = refl
cut_page-held full (some s) h = rw (short (omega (arith, length-drop s full))) refl
  where
    short : length full - s ≤ max_pending_bytes → ltb max_pending_bytes (length full - s) ≡ false
    short le = ground arith

inner_resumes :
    (full ext : List ℕ)
    → Smooth full
    → strip_control_sequences (full ++ ext)
      ≡ (strip_page_inner full).text
        ++ strip_control_sequences ((strip_page_inner full).trailing ++ ext)
unfolding strip_page_inner
inner_resumes full ext h =
    rw (cut_page_fits full o h.fits, cut_page-held full o h.fits)
      (trailing_loop-Resumes (length full) full ext (omega arith) h.apart)
  where
    o : Option ℕ
    o = incomplete_trailing_start full

strip_page-eq-inner :
    (page pending : List ℕ) → strip_page page pending ≡ strip_page_inner (pending ++ page)
unfolding strip_page
strip_page-eq-inner page [] = refl
strip_page-eq-inner page (b ∷ pending) = refl

-- The text of a page, and then of what it holds back and whatever follows, is the text of all of
-- it, where what is held back fits 8 KiB and does not follow an ESC.
pub strip_page-resumes :
    (page pending ext : List ℕ)
    → Smooth (pending ++ page)
    → (strip_page page pending).text
        ++ strip_control_sequences ((strip_page page pending).trailing ++ ext)
      ≡ strip_control_sequences (pending ++ (page ++ ext))
strip_page-resumes page pending ext h = rw (strip_page-eq-inner page pending) (
    sym (inner_resumes (pending ++ page) ext h)
    ∙ ap strip_control_sequences (append_assoc pending page ext))

-- The texts of the pages in order, and what the last one holds back.
abbrev pub strip_pages : List ℕ → List (List ℕ) → List ℕ × List ℕ
strip_pages pending [] = ([], pending)
strip_pages pending (page ∷ pages) =
    let r = strip_page page pending in
    let (text, last) = strip_pages r.trailing pages in (r.text ++ text, last)

abbrev pub join : List (List ℕ) → List ℕ
join [] = []
join (page ∷ pages) = page ++ join pages

abbrev pub AllSmooth : List ℕ → List (List ℕ) → Type 0
AllSmooth pending [] = Unit
AllSmooth pending (page ∷ pages) =
    Smooth (pending ++ page) × AllSmooth (strip_page page pending).trailing pages

-- However a stream is cut into pages, the texts of the pages and of what is held back at the end
-- are the text of the whole stream stripped at once, where each page holds back at most 8 KiB
-- and no held-back sequence follows an ESC.
pub strip_pages-stream :
    (pending : List ℕ) (pages : List (List ℕ))
    → AllSmooth pending pages
    → (strip_pages pending pages).0 ++ strip_control_sequences (strip_pages pending pages).1
      ≡ strip_control_sequences (pending ++ join pages)
strip_pages-stream pending [] h = ap strip_control_sequences (sym (append-nil pending))
strip_pages-stream pending (page ∷ pages) h =
    append_assoc r.text (strip_pages r.trailing pages).0
      (strip_control_sequences (strip_pages r.trailing pages).1)
    ∙ (ap (λ l. r.text ++ l) (strip_pages-stream r.trailing pages h.1)
        ∙ strip_page-resumes page pending (join pages) h.0)
  where
    r : StripPageResult
    r = strip_page page pending

-- A page that ends in two escapes, the second of which may begin a sequence.
abbrev pub double_esc : List ℕ → List ℕ
double_esc text = text ++ (esc ∷ (esc ∷ []))

double_start : trailing_loop 2 (esc ∷ (esc ∷ [])) ≡ some 1
unfolding trailing_loop run_length
double_start = refl

inner_cut :
    (full : List ℕ) (s : ℕ)
    → trailing_loop (length full) full ≡ some s
    → length full ≤ s + max_pending_bytes
    → (strip_page_inner full).text ≡ strip_control_sequences (take s full)
unfolding strip_page_inner
inner_cut full s h le = rw h (cut_page_fits full (some s) (omega (arith, length-drop s full)))

double_esc-start :
    (text : List ℕ)
    → NoEsc text
    → trailing_loop (length (double_esc text)) (double_esc text) ≡ some (suc (length text))
double_esc-start [] h = double_start
double_esc-start (b ∷ text) h =
    round_text (length (double_esc text)) (double_esc text) b (ground (arith, h.0))
    ∙ ap map_suc (double_esc-start text h.1)

double_esc-take : (text : List ℕ) → take (suc (length text)) (double_esc text) ≡ text ++ (esc ∷ [])
double_esc-take [] = refl
double_esc-take (b ∷ text) = ap (λ l. b ∷ l) (double_esc-take text)

double_esc-page :
    (text : List ℕ) → NoEsc text → (strip_page (double_esc text) []).text ≡ text ++ (esc ∷ [])
double_esc-page text h = rw (strip_page-eq-inner (double_esc text) []) (
    inner_cut (double_esc text) (suc (length text)) (double_esc-start text h)
      (omega (arith, length-append text (esc ∷ (esc ∷ []))))
    ∙ (ap strip_control_sequences (double_esc-take text)
        ∙ (strip-plain text (esc ∷ []) h ∙ ap (λ l. text ++ l) (strip-lone esc))))

double_rest : strip_control_sequences (esc ∷ (esc ∷ (b'[' ∷ (b'm' ∷ [])))) ≡ []
unfolding strip_control_sequences run_length
double_rest = refl

-- A page that ends in two escapes puts an ESC into its text that the whole input, with `[m`
-- behind the page, does not have there.
pub double_esc_leaks :
    (text : List ℕ)
    → NoEsc text
    → ((strip_page (double_esc text) []).text ≡ text ++ (esc ∷ []))
      × (strip_control_sequences (double_esc text ++ (b'[' ∷ (b'm' ∷ []))) ≡ text)
double_esc_leaks text h = (
  double_esc-page text h,
  ap strip_control_sequences (append_assoc text (esc ∷ (esc ∷ [])) (b'[' ∷ (b'm' ∷ [])))
      ∙ (strip-plain text (esc ∷ (esc ∷ (b'[' ∷ (b'm' ∷ [])))) h
          ∙ (ap (λ l. text ++ l) double_rest ∙ append-nil text)),
)
