-- ===== src/Prelude/Slices.antt =====
-- How `take` and `drop` meet `++` and one another.
use Prim.Native.Nat.{ℕ, zero, suc, ◌+◌, ◌-◌, ◌≤◌, min}
use mathlib.Core.Path.{◌≡◌, refl, sym, ap, ◌∙◌}
use mathlib.Core.List.{List, [], ◌∷◌, ◌++◌}
use native.Mathlib.Decide.{dec_le}
use native.Mathlib.Omega.{arith}
use term_bridge.Prelude.Lists.{length, take, drop}

module _ {ℓ} {A : Type ℓ} where
  pub take-append-drop : (n : ℕ) (xs : List A) → take n xs ++ drop n xs ≡ xs
  take-append-drop zero xs = refl
  take-append-drop (suc n) [] = refl
  take-append-drop (suc n) (x ∷ xs) = rw (take-append-drop n xs)

  pub take_all : (n : ℕ) (xs : List A) → length xs ≤ n → take n xs ≡ xs
  take_all zero [] h = refl
  take_all zero (x ∷ xs) h = absurd (omega arith)
  take_all (suc n) [] h = refl
  take_all (suc n) (x ∷ xs) h = ap (λ l. x ∷ l) (take_all n xs (omega arith))

  pub drop_all : (n : ℕ) (xs : List A) → length xs ≤ n → drop n xs ≡ []
  drop_all zero [] h = refl
  drop_all zero (x ∷ xs) h = absurd (omega arith)
  drop_all (suc n) [] h = refl
  drop_all (suc n) (x ∷ xs) h = drop_all n xs (omega arith)

  pub drop-append_le :
      (n : ℕ) (xs ys : List A) → n ≤ length xs → drop n (xs ++ ys) ≡ drop n xs ++ ys
  drop-append_le zero xs ys h = refl
  drop-append_le (suc n) [] ys h = absurd (omega arith)
  drop-append_le (suc n) (x ∷ xs) ys h = drop-append_le n xs ys (omega arith)

  pub take-append_le : (n : ℕ) (xs ys : List A) → n ≤ length xs → take n (xs ++ ys) ≡ take n xs
  take-append_le zero xs ys h = refl
  take-append_le (suc n) [] ys h = absurd (omega arith)
  take-append_le (suc n) (x ∷ xs) ys h = ap (λ l. x ∷ l) (take-append_le n xs ys (omega arith))

  pub take-nil : (n : ℕ) → take {A = A} n [] ≡ []
  take-nil zero = refl
  take-nil (suc n) = refl

  -- The index of a cut may be rewritten.
  pub drop_at : (a b : ℕ) (xs : List A) → a ≡ b → drop a xs ≡ drop b xs
  drop_at a b xs e = ap (λ j. drop j xs) e

  pub take_at : (a b : ℕ) (xs : List A) → a ≡ b → take a xs ≡ take b xs
  take_at a b xs e = ap (λ j. take j xs) e

module _ {ℓ} {A : Type ℓ} where
  pub drop-append_ge :
      (n : ℕ) (xs ys : List A) → length xs ≤ n → drop n (xs ++ ys) ≡ drop (n - length xs) ys
  drop-append_ge n [] ys h = drop_at n (n - 0) ys (omega arith)
  drop-append_ge zero (x ∷ xs) ys h = absurd (omega arith)
  drop-append_ge (suc n) (x ∷ xs) ys h =
      drop-append_ge n xs ys (omega arith)
      ∙ drop_at (n - length xs) (suc n - suc (length xs)) ys (omega arith)

  pub take-append_ge :
      (n : ℕ) (xs ys : List A) → length xs ≤ n → take n (xs ++ ys) ≡ xs ++ take (n - length xs) ys
  take-append_ge n [] ys h = take_at n (n - 0) ys (omega arith)
  take-append_ge zero (x ∷ xs) ys h = absurd (omega arith)
  take-append_ge (suc n) (x ∷ xs) ys h =
      ap (λ l. x ∷ l)
        (take-append_ge n xs ys (omega arith)
          ∙ ap (λ l. xs ++ l) (take_at (n - length xs) (suc n - suc (length xs)) ys (omega arith)))

  pub drop-drop : (a b : ℕ) (xs : List A) → drop a (drop b xs) ≡ drop (b + a) xs
  drop-drop a zero xs = drop_at a (0 + a) xs (omega arith)
  drop-drop zero (suc b) [] = drop_at (suc b) (suc b + 0) [] (omega arith)
  drop-drop (suc a) (suc b) [] = drop_at (suc (b + suc a)) (suc b + suc a) [] (omega arith)
  drop-drop a (suc b) (x ∷ xs) =
      drop-drop a b xs ∙ drop_at (suc (b + a)) (suc b + a) (x ∷ xs) (omega arith)

  pub drop-take : (n k : ℕ) (xs : List A) → drop n (take (n + k) xs) ≡ take k (drop n xs)
  drop-take zero k xs = take_at (0 + k) k xs (omega arith)
  drop-take (suc n) k [] = rw (take-nil (suc n + k), take-nil k)
  drop-take (suc n) k (x ∷ xs) =
      ap (drop (suc n)) (take_at (suc n + k) (suc (n + k)) (x ∷ xs) (omega arith))
      ∙ drop-take n k xs

  -- Two ways to cut a list at one place.
  pub append_split : (a b c d : List A) → a ++ b ≡ c ++ d → length a ≡ length c → (a ≡ c) × (b ≡ d)
  append_split [] b [] d e h = (refl, e)
  append_split [] b (y ∷ c) d e h = absurd (omega arith)
  append_split (x ∷ a) b [] d e h = absurd (omega arith)
  append_split (x ∷ a) b (y ∷ c) d e h =
      let (p, q) = append_split a b c d (ap (drop 1) e) (omega arith) in (cc p, q)

module _ {ℓ} {A : Type ℓ} where
  pub take-take : (a b : ℕ) (xs : List A) → a ≤ b → take a (take b xs) ≡ take a xs
  take-take zero b xs h = refl
  take-take (suc a) zero xs h = absurd (omega arith)
  take-take (suc a) (suc b) [] h = refl
  take-take (suc a) (suc b) (x ∷ xs) h = ap (λ l. x ∷ l) (take-take a b xs (omega arith))

  pub take-min : (n m : ℕ) (xs : List A) → length xs ≡ n → take (min n m) xs ≡ take m xs
  take-min n m xs e = elim (dec_le n m) [
    | yes le ↦
        take_at (min n m) n xs (omega arith)
        ∙ (take_all n xs (omega arith) ∙ sym (take_all m xs (omega arith)))
    | no gt ↦ take_at (min n m) m xs (omega arith)
  ]

  pub take-append-drop-length :
      (m : ℕ) (xs : List A) → take m xs ++ drop (length (take m xs)) xs ≡ xs
  take-append-drop-length zero xs = refl
  take-append-drop-length (suc m) [] = refl
  take-append-drop-length (suc m) (x ∷ xs) = ap (λ l. x ∷ l) (take-append-drop-length m xs)

  pub take-add : (n k : ℕ) (xs : List A) → take (n + k) xs ≡ take n xs ++ take k (drop n xs)
  take-add zero k xs = take_at (0 + k) k xs (omega arith)
  take-add (suc n) k [] = rw (take-nil (suc n + k), take-nil k)
  take-add (suc n) k (x ∷ xs) =
      take_at (suc n + k) (suc (n + k)) (x ∷ xs) (omega arith) ∙ ap (λ l. x ∷ l) (take-add n k xs)
