-- ===== src/Base/Lists.antt =====
-- Lists measured by native numbers.
use Prim.Native.Nat.{ℕ, zero, suc, ◌+◌, ◌-◌, ◌≤◌}
use mathlib.Core.Path.{◌≡◌, refl, ap, ◌∙◌, sym}
use mathlib.Core.Logic.{◌⊎◌, inl, inr}
use mathlib.Core.List.{List, [], ◌∷◌, ◌++◌}
use native.Mathlib.Omega.{arith}

module _ {ℓ} {A : Type ℓ} where
  abbrev pub length : List A → ℕ
  length [] = 0
  length (x ∷ xs) = suc (length xs)

  abbrev pub take : ℕ → List A → List A
  take zero xs = []
  take (suc n) [] = []
  take (suc n) (x ∷ xs) = x ∷ take n xs

  abbrev pub drop : ℕ → List A → List A
  drop zero xs = xs
  drop (suc n) [] = []
  drop (suc n) (x ∷ xs) = drop n xs

  pub length-append : (xs ys : List A) → length (xs ++ ys) ≡ length xs + length ys
  length-append [] ys = omega arith
  length-append (x ∷ xs) ys = omega (arith, length-append xs ys)

-- A predicate at each item of a list.
abbrev pub All {ℓ κ} : {A : Type ℓ} → (A → Type κ) → List A → Type κ
All holds [] = Unit
All holds (head ∷ tail) = holds head × All holds tail

suc_plus : (a b : ℕ) → suc (a + b) ≡ suc a + b
suc_plus a b = omega arith

module _ {ℓ} {A : Type ℓ} where
  take-nil : (n : ℕ) → take {A = A} n [] ≡ []
  take-nil zero = refl
  take-nil (suc n) = refl

  drop-nil : (n : ℕ) → drop {A = A} n [] ≡ []
  drop-nil zero = refl
  drop-nil (suc n) = refl

  -- A prefix that is as long as the list is the list, by induction on the list.
  pub take_of_length-le : (n : ℕ) (xs : List A) → length xs ≤ n → take n xs ≡ xs
  take_of_length-le n [] enough = take-nil n
  take_of_length-le zero (head ∷ tail) enough = absurd (omega arith)
  take_of_length-le (suc k) (head ∷ tail) enough =
      let fits : length tail ≤ k = omega arith in ap (◌∷◌ head) (take_of_length-le k tail fits)

  pub drop_of_length-le : (n : ℕ) (xs : List A) → length xs ≤ n → drop n xs ≡ []
  drop_of_length-le n [] enough = drop-nil n
  drop_of_length-le zero (head ∷ tail) enough = absurd (omega arith)
  drop_of_length-le (suc k) (head ∷ tail) enough = drop_of_length-le k tail (omega arith)

  pub length-drop : (n : ℕ) (xs : List A) → length (drop n xs) ≡ length xs - n
  length-drop zero xs = omega arith
  length-drop (suc n) [] = omega arith
  length-drop (suc n) (x ∷ xs) = omega (arith, length-drop n xs)

  pub length-take-drop : (n : ℕ) (xs : List A) → length (take n xs) + length (drop n xs) ≡ length xs
  length-take-drop zero xs = omega arith
  length-take-drop (suc n) [] = omega arith
  length-take-drop (suc n) (x ∷ xs) = omega (arith, length-take-drop n xs)

  pub All-drop {κ} : (P : A → Type κ) (n : ℕ) (xs : List A) → All P xs → All P (drop n xs)
  All-drop P zero xs h = h
  All-drop P (suc n) [] h = h
  All-drop P (suc n) (x ∷ xs) h = All-drop P n xs h.1

  pub length-take-le : (n : ℕ) (xs : List A) → length (take n xs) ≤ n
  length-take-le zero xs = omega arith
  length-take-le (suc n) [] = omega arith
  length-take-le (suc n) (x ∷ xs) = omega (arith, length-take-le n xs)

  take-append-take : (n m : ℕ) (xs : List A) → take n xs ++ take m (drop n xs) ≡ take (n + m) xs
  take-append-take zero m xs = ground arith
  take-append-take (suc n) m [] = ground (arith, take-nil m, take-nil (suc n + m))
  take-append-take (suc n) m (x ∷ xs) =
      ap (◌∷◌ x) (take-append-take n m xs) ∙ ap (λ (k : ℕ). take k (x ∷ xs)) (suc_plus n m)

  pub drop-drop : (k n : ℕ) (xs : List A) → drop n (drop k xs) ≡ drop (k + n) xs
  drop-drop zero n xs = ground arith
  drop-drop (suc k) n [] = ground (arith, drop-nil n, drop-nil (suc k + n))
  drop-drop (suc k) n (x ∷ xs) = drop-drop k n xs ∙ ap (λ (j : ℕ). drop j (x ∷ xs)) (suc_plus k n)

  -- Two pages that follow one another are one larger page.
  pub take-append-drop :
      (n m k : ℕ) (xs : List A)
      → take n (drop k xs) ++ take m (drop (k + n) xs) ≡ take (n + m) (drop k xs)
  take-append-drop n m k xs =
      ap (λ (ys : List A). take n (drop k xs) ++ take m ys) (sym (drop-drop k n xs))
      ∙ take-append-take n m (drop k xs)

pub List-cases {ℓ} :
    {A : Type ℓ} (xs : List A) → (xs ≡ []) ⊎ ((x : A) × (rest : List A) × (xs ≡ x ∷ rest))
List-cases [] = inl refl
List-cases (x ∷ rest) = inr (x, rest, refl)
