-- ===== src/Types/Pool/Bounds.antt =====
-- types/pool.go: the bounds of the numbers that `DeserializePool` reads, and of the subtraction that
-- `ToMarginOffer` makes of them.
use native.Mathlib.Nat.{pow-suc}
use margin_offer_system.Base.{
  ℕ, zero, suc, ◌+◌, ◌^◌, ◌≤◌, ◌<◌, String, ◌≡◌, refl, ◌↔◌, Bool-cases, inl, inr, List, [], ◌∷◌,
  arith, ltb, length, take, drop, All, All-drop, subst,
}
use margin_offer_system.Types.Pool.{Solana, Pool, deserialize_pool, pool_discriminator}
use margin_offer_system.Types.Pool.Bytes.{
  Decoded, ok, err, ◌>>=◌, read, le_value, check_discriminator,
}
use margin_offer_system.Types.Pool.Offer.{free_funds}

abbrev pub AreBytes : List ℕ → Type 0
AreBytes = All (λ b. b < 256)

-- A property of what is decoded, if something is.
unfoldable Gives : {A : Type 0} → (A → Type 0) → Decoded A → Type 0
Gives P (ok a) = P a
Gives P (err e) = Unit

Gives-ok : {A : Type 0} (P : A → Type 0) (a : A) → P a → Gives P (ok a)
unfolding Gives
Gives-ok P a h = h

Gives-bind :
    {A B : Type 0} (P : A → Type 0) (Q : B → Type 0) (x : Decoded A) (f : A → Decoded B)
    → Gives P x
    → ((a : A) → P a → Gives Q (f a))
    → Gives Q (x >>= f)
unfolding Gives
Gives-bind P Q (ok a) f h k = k a h
Gives-bind P Q (err e) f h k = tt

Gives-unit : {A : Type 0} (x : Decoded A) → Gives (λ _. Unit) x
unfolding Gives
Gives-unit (ok a) = tt
Gives-unit (err e) = tt

Gives-ran : {A : Type 0} (P : A → Type 0) {x : Decoded A} (a : A) → Gives P x → x ≡ ok a → P a
unfolding Gives
Gives-ran P a h e = subst (Gives P) e h

le_value-take : (n : ℕ) (bs : List ℕ) → AreBytes bs → le_value (take n bs) < 256 ^ n
unfolding le_value
le_value-take zero bs h = omega arith
le_value-take (suc n) [] h = let k = le_value-take n [] tt in rw pow-suc (omega (arith, k))
le_value-take (suc n) (b ∷ bs) (low, h) =
    let k = le_value-take n bs h in rw pow-suc (omega (arith, k, low))

-- A field of `n` bytes at an offset: its number and the next offset.
abbrev IsField : ℕ → List ℕ → ℕ → List ℕ × ℕ → Type 0
IsField n bytes offset (field, end) =
    (le_value field < 256 ^ n) × (end ≡ offset + n) × (offset + n ≤ length bytes)

read-Gives :
    (n : ℕ) (message : String) (bytes : List ℕ) (offset : ℕ)
    → AreBytes bytes
    → Gives (IsField n bytes offset) (read n message bytes offset)
unfolding read Gives
read-Gives n message bytes offset low = elim (Bool-cases (ltb (length bytes) (offset + n))) [
  | inl short ↦ rw short tt
  | inr room ↦
      let fits : offset + n ≤ length bytes = ground arith in
      rw room
        (le_value-take n (drop offset bytes) (All-drop (λ b. b < 256) offset bytes low), refl, fits)
]

-- What follows the read of a field.
after_field :
    {B : Type 0} (Q : B → Type 0) (n : ℕ) (message : String) (bytes : List ℕ) (offset : ℕ)
    → (f : List ℕ × ℕ → Decoded B) → AreBytes bytes
    → ((a : List ℕ × ℕ) → IsField n bytes offset a → Gives Q (f a))
    → Gives Q (read n message bytes offset >>= f)
after_field Q n message bytes offset f low =
    Gives-bind (IsField n bytes offset) Q (read n message bytes offset) f
      (read-Gives n message bytes offset low)

-- What is known of a pool's numbers, and of the funds that are left of it.
pub record IsBounded {K : Type 0} (p : Pool K) : Type 0 where
  pub interest_rate : p.interest_rate < 2 ^ 8
  pub max_borrow : p.max_borrow < 2 ^ 64
  pub max_exposure : p.max_exposure < 2 ^ 64
  pub current_exposure : p.current_exposure < 2 ^ 64
  pub free : free_funds p.max_borrow p.current_exposure < 2 ^ 64
  pub within :
      (free_funds p.max_borrow p.current_exposure ≤ p.max_borrow)
      ↔ (p.current_exposure ≤ p.max_borrow)

-- The subtraction of two words wraps exactly where it would be negative.
module _ (m e : ℕ) (hm : m < 2 ^ 64) (he : e < 2 ^ 64) where
  free_funds-lt : free_funds m e < 2 ^ 64
  unfolding free_funds
  free_funds-lt = omega arith

  free_funds-le : (free_funds m e ≤ m) ↔ (e ≤ m)
  unfolding free_funds
  free_funds-le = (λ h. omega arith, λ h. omega arith)

IsWhole : {K : Type 0} → List ℕ → Pool K → Type 0
IsWhole bytes p = (129 ≤ length bytes) × IsBounded p

-- Whatever bytes DeserializePool reads a pool from, there are at least 129 of them, the rate is
-- below 2^8 and the three amounts are below 2^64; and what ToMarginOffer subtracts of them,
-- MaxBorrow less CurrentExposure, is below 2^64 and is at most MaxBorrow exactly when
-- CurrentExposure is.
pub deserialize_pool-IsBounded :
    (lib : Solana) (bytes : List ℕ) (p : Pool (lib.PublicKey))
    → AreBytes bytes
    → deserialize_pool lib bytes ≡ ok p
    → (129 ≤ length bytes) × IsBounded p
unfolding deserialize_pool IsWhole
deserialize_pool-IsBounded lib bytes p low = Gives-ran (IsWhole bytes) p (
    Gives-bind (λ _. Unit) (IsWhole bytes) (check_discriminator _ _ pool_discriminator bytes) _
      (Gives-unit _)
      λ _ _. after_field (IsWhole bytes) 1 _ bytes 8 _ low λ f1 k1.
        after_field (IsWhole bytes) 32 _ bytes (f1.1) _ low λ f2 k2.
          after_field (IsWhole bytes) 8 _ bytes (f2.1) _ low λ f3 k3.
            after_field (IsWhole bytes) 32 _ bytes (f3.1) _ low λ f4 k4.
              after_field (IsWhole bytes) 8 _ bytes (f4.1) _ low λ f5 k5.
                after_field (IsWhole bytes) 8 _ bytes (f5.1) _ low λ f6 k6.
                  after_field (IsWhole bytes) 32 _ bytes (f6.1) _ low λ f7 k7.
                    Gives-ok (IsWhole bytes) _ (
                      omega (arith, k1.1, k2.1, k3.1, k4.1, k5.1, k6.1, k7.1, k7.2),
                      record {
                        interest_rate = k1.0;
                        max_borrow = k3.0;
                        max_exposure = k5.0;
                        current_exposure = k6.0;
                        free = free_funds-lt _ _ k3.0 k6.0;
                        within = free_funds-le _ _ k3.0 k6.0;
                      },
                    ))
