-- ===== src/Table.antt =====
-- Tables keyed by text, for the hash maps: an insertion replaces what the key had.
use term_bridge.Prelude.{
  ◌≡◌, ◌≢◌, refl, Bool-cases, true, false, ◌==◌, ==_iff, Option, none, some, List, [], ◌∷◌,
  if◌then◌else◌, inl, inr,
}
use term_bridge.Text.{Text, eq_text}

pub eq_text_refl : (s : Text) → eq_text s s ≡ true
eq_text_refl [] = refl
eq_text_refl (b ∷ s) = rw ((==_iff b b).1 refl, eq_text_refl s) refl

pub eq_text-eq : (s t : Text) → eq_text s t ≡ true → s ≡ t
eq_text-eq [] [] h = refl
eq_text-eq [] (b ∷ t) h = cc
eq_text-eq (a ∷ s) [] h = cc
eq_text-eq (a ∷ s) (b ∷ t) h = elim (Bool-cases (a == b)) [
  | inl same ↦ cc ((==_iff a b).0 same, eq_text-eq s t (rw same at h))
  | inr differ ↦ cc (rw differ at h)
]

pub eq_text-ne : (s t : Text) → s ≢ t → eq_text s t ≡ false
eq_text-ne s t h = elim (Bool-cases (eq_text s t)) [
  | inl same ↦ absurd (h (eq_text-eq s t same))
  | inr differ ↦ differ
]

pub eq_text-false : (s t : Text) → eq_text s t ≡ false → s ≢ t
eq_text-false s t h e = cc (rw (e, eq_text_refl t) at h)

module _ {ℓ} {A : Type ℓ} where
  abbrev pub lookup : Text → List (Text × A) → Option A
  lookup key [] = none
  lookup key ((k, a) ∷ rows) = let rest = lookup key rows in if eq_text key k then some a else rest

  abbrev pub remove : Text → List (Text × A) → List (Text × A)
  remove key [] = []
  remove key ((k, a) ∷ rows) =
      let rest = remove key rows in if eq_text key k then rest else (k, a) ∷ rest

  abbrev pub insert : Text → A → List (Text × A) → List (Text × A)
  insert key a rows = (key, a) ∷ remove key rows

  pub lookup-remove : (key : Text) (rows : List (Text × A)) → lookup key (remove key rows) ≡ none
  lookup-remove key [] = refl
  lookup-remove key ((k, a) ∷ rows) = elim (Bool-cases (eq_text key k)) [
    | inl same ↦ rw same (lookup-remove key rows)
    | inr differ ↦ rw (differ, differ) (lookup-remove key rows)
  ]

  pub lookup-remove_other :
      (key other : Text) (rows : List (Text × A))
      → other ≢ key
      → lookup other (remove key rows) ≡ lookup other rows
  lookup-remove_other key other [] ne = refl
  lookup-remove_other key other ((k, a) ∷ rows) ne = elim (Bool-cases (eq_text key k)) [
    | inl same ↦
        let k_is_key : key ≡ k = eq_text-eq key k same in
        let other_differs : other ≢ k = λ e. ne (cc (e, k_is_key)) in
        rw (same, eq_text-ne other k other_differs) (lookup-remove_other key other rows ne)
    | inr differ ↦ rw differ (rw (lookup-remove_other key other rows ne) refl)
  ]

  pub lookup-insert :
      (key : Text) (a : A) (rows : List (Text × A)) → lookup key (insert key a rows) ≡ some a
  lookup-insert key a rows = rw (eq_text_refl key) refl

  pub lookup-insert_other :
      (key other : Text) (a : A) (rows : List (Text × A))
      → other ≢ key
      → lookup other (insert key a rows) ≡ lookup other rows
  lookup-insert_other key other a rows ne =
      rw (eq_text-ne other key ne) (lookup-remove_other key other rows ne)
