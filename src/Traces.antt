-- ===== src/Traces.antt =====
-- Calls of a foreign component in their order: what goes on from the calls that were made.
use term_bridge.Prelude.{◌≡◌, refl, sym, ap, ◌∙◌, List, [], ◌∷◌, ◌++◌, append-nil, append_assoc}

abbrev pub All {ℓ κ} : {A : Type ℓ} → (A → Type κ) → List A → Type κ
All P [] = Unit
All P (x ∷ xs) = P x × All P xs

pub All-append {ℓ κ} :
    {A : Type ℓ} (P : A → Type κ) (xs ys : List A) → All P xs → All P ys → All P (xs ++ ys)
All-append P [] ys hx hy = hy
All-append P (x ∷ xs) ys (h, hx) hy = (h, All-append P xs ys hx hy)

pub All-weaken {ℓ κ} :
    {A : Type ℓ} (P Q : A → Type κ) → ((x : A) → P x → Q x) → (xs : List A) → All P xs → All Q xs
All-weaken P Q f [] h = tt
All-weaken P Q f (x ∷ xs) (h, hs) = (f x h, All-weaken P Q f xs hs)

module _ {C : Type 0} (P : C → Type 0) where
  -- The calls go on from those that were made, all of them as `P` says.
  abbrev pub Extends : List C → List C → Type 0
  Extends calls more = (new : List C) × (more ≡ calls ++ new) × All P new

  pub Extends-refl : (calls : List C) → Extends calls calls
  Extends-refl calls = ([], sym (append-nil calls), tt)

  pub Extends-one : (calls : List C) (call : C) → P call → Extends calls (calls ++ (call ∷ []))
  Extends-one calls call p = (call ∷ [], refl, (p, tt))

  pub Extends-trans : (a b c : List C) → Extends a b → Extends b c → Extends a c
  Extends-trans a b c (m, e, hm) (n, f, hn) =
      (m ++ n, f ∙ (ap (λ l. l ++ n) e ∙ append_assoc a m n), All-append P m n hm hn)

pub Extends-weaken :
    {C : Type 0} (P Q : C → Type 0)
    → ((c : C) → P c → Q c)
    → (a b : List C) → Extends P a b
    → Extends Q a b
Extends-weaken P Q f a b (new, e, h) = (new, e, All-weaken P Q f new h)
