-- ===== src/Examples/OfAnsi.antt =====
-- A coloured text in two pages, and the inputs that are stripped in surprising ways.
use term_bridge.Prelude.{ℕ, ◌≤◌, ◌≡◌, refl, List, [], ◌∷◌, ◌++◌, length, arith, inl, none, some}
use term_bridge.Ansi.{
  esc, strip_control_sequences, strip_page, incomplete_trailing_start, run_length,
}
use term_bridge.Ansi.Stream.{
  Smooth, AllSmooth, strip_pages, join, strip_pages-stream, double_esc, double_esc_leaks,
}
use term_bridge.Ansi.Text.{EscOnlyLast, strip_bounds, NoEsc, malformed_csi_swallows}

-- "a", ESC, "[3" and then "1mb".
abbrev page_one : List ℕ
page_one = 97 ∷ (esc ∷ (b'[' ∷ (b'3' ∷ [])))

abbrev page_two : List ℕ
page_two = b'1' ∷ (b'm' ∷ (98 ∷ []))

page_one-start : incomplete_trailing_start page_one ≡ some 1
unfolding incomplete_trailing_start run_length
page_one-start = refl

page_one-trailing : (strip_page page_one []).trailing ≡ esc ∷ (b'[' ∷ (b'3' ∷ []))
unfolding strip_page run_length
page_one-trailing = refl

page_two-start : incomplete_trailing_start (esc ∷ (b'[' ∷ (b'3' ∷ page_two))) ≡ none
unfolding incomplete_trailing_start run_length
page_two-start = refl

page_one-Smooth : Smooth page_one
page_one-Smooth = record { fits = rw page_one-start (omega arith); apart = rw page_one-start refl }

page_two-Smooth : Smooth (esc ∷ (b'[' ∷ (b'3' ∷ page_two)))
page_two-Smooth = record { fits = rw page_two-start (omega arith); apart = rw page_two-start refl }

pages-AllSmooth : AllSmooth [] (page_one ∷ (page_two ∷ []))
pages-AllSmooth = (page_one-Smooth, (rw page_one-trailing page_two-Smooth, tt))

strip_pages-stream_example :
    (strip_pages [] (page_one ∷ (page_two ∷ []))).0
      ++ strip_control_sequences (strip_pages [] (page_one ∷ (page_two ∷ []))).1
    ≡ strip_control_sequences ([] ++ join (page_one ∷ (page_two ∷ [])))
strip_pages-stream_example = strip_pages-stream [] (page_one ∷ (page_two ∷ [])) pages-AllSmooth

strip_bounds_example :
    (length (strip_control_sequences page_one) ≤ length page_one)
    × EscOnlyLast (strip_control_sequences page_one)
strip_bounds_example = strip_bounds page_one

-- "ab"
abbrev plain : List ℕ
plain = 97 ∷ (98 ∷ [])

plain-NoEsc : NoEsc plain
plain-NoEsc = (omega arith, (omega arith, tt))

malformed_csi_swallows_example :
    strip_control_sequences (plain ++ (esc ∷ (b'[' ∷ (10 ∷ page_two)))) ≡ plain
malformed_csi_swallows_example =
    malformed_csi_swallows plain 10 page_two plain-NoEsc (inl (omega arith))

double_esc_leaks_example :
    ((strip_page (double_esc plain) []).text ≡ plain ++ (esc ∷ []))
    × (strip_control_sequences (double_esc plain ++ (b'[' ∷ (b'm' ∷ []))) ≡ plain)
double_esc_leaks_example = double_esc_leaks plain plain-NoEsc
