-- ===== src/Types/Pool/Bytes.antt =====
-- What types/pool.go reads accounts with: checked slices of the raw bytes, little-endian words, and
-- the comparison of byte slices.
use native.Mathlib.Nat.{pow-suc}
use margin_offer_system.Base.{
  ℕ, zero, suc, ◌⊎◌, inl, inr, ◌+◌, ◌-◌, ◌*◌, ◌/◌, ◌%◌, ◌^◌, ◌≤◌, ◌<◌, String, ◌≡◌, refl, Bool,
  true, false, not, List, [], ◌∷◌, ◌++◌, arith, ltb, eqb, if◌then◌else◌, length, take, drop,
  length-drop, ap, ◌∙◌, sym, length-append, drop-drop,
}
use margin_offer_system.Base.Int.{ℤ, pos, negsuc}

-- A value, or the text of an error of `fmt.Errorf`.
pub data Decoded {ℓ} (A : Type ℓ) : Type ℓ where
  ok : A → Decoded A
  err : String → Decoded A

infixl 5 ◌>>=◌
abbrev pub ◌>>=◌ {ℓ κ} : {A : Type ℓ} {B : Type κ} → Decoded A → (A → Decoded B) → Decoded B
ok a >>= f = f a
err e >>= f = err e

pub Decoded-cases {ℓ} :
    {A : Type ℓ} (x : Decoded A) → ((a : A) × (x ≡ ok a)) ⊎ ((e : String) × (x ≡ err e))
Decoded-cases (ok a) = inl (a, refl)
Decoded-cases (err e) = inr (e, refl)

-- A step that succeeds hands its value on.
pub bind_ok :
    {A B : Type 0} {x : Decoded A} {a : A} (f : A → Decoded B) → x ≡ ok a → (x >>= f) ≡ f a
bind_ok f h = ap (λ y. y >>= f) h

-- `if offset+n > len(data) { return ... }`, then `data[offset : offset+n]` and `offset += n`.
unfoldable pub read : ℕ → String → List ℕ → ℕ → Decoded (List ℕ × ℕ)
read n message bytes offset =
    if ltb (length bytes) (offset + n)
    then err message
    else ok (take n (drop offset bytes), offset + n)

-- `binary.LittleEndian.Uint64` and `Uint16`, and a single byte.
unfoldable pub le_value : List ℕ → ℕ
le_value [] = 0
le_value (b ∷ bytes) = b + 256 * le_value bytes

-- `int64(...)` of an unsigned word.
unfoldable pub signed64 : ℕ → ℤ
signed64 w = if ltb w (2 ^ 63) then pos w else negsuc (2 ^ 64 - w - 1)

-- The loop of `bytesEqual`, over slices of one length.
same_bytes : List ℕ → List ℕ → Bool
same_bytes [] bs = true
same_bytes (a ∷ as') [] = true
same_bytes (a ∷ as') (b ∷ bs) = let rest = same_bytes as' bs in if eqb a b then rest else false

-- `bytesEqual`
unfoldable pub bytes_equal : List ℕ → List ℕ → Bool
unfolding same_bytes
bytes_equal a b = if eqb (length a) (length b) then same_bytes a b else false

-- The first eight bytes, if there are so many and they are the discriminator.
unfoldable pub check_discriminator : String → String → List ℕ → List ℕ → Decoded (Unit {0})
unfolding bytes_equal
check_discriminator short invalid expected bytes =
    if ltb (length bytes) 8
    then err short
    else if not (bytes_equal (take 8 bytes) expected)
    then err invalid
    else ok tt

-- The `n` low bytes of a number, the lowest first.
unfoldable pub le_bytes : ℕ → ℕ → List ℕ
le_bytes zero v = []
le_bytes (suc n) v = (v % 256) ∷ le_bytes n (v / 256)

pub length-le_bytes : (n v : ℕ) → length (le_bytes n v) ≡ n
unfolding le_bytes
length-le_bytes zero v = refl
length-le_bytes (suc n) v = ap suc (length-le_bytes n (v / 256))

pub le_value-le_bytes : (n v : ℕ) → v < 256 ^ n → le_value (le_bytes n v) ≡ v
unfolding le_bytes le_value
le_value-le_bytes zero v h = omega arith
le_value-le_bytes (suc n) v h =
    let k : v < 256 ^ n * 256 = rw (← pow-suc) h in
    omega (arith, le_value-le_bytes n (v / 256) (omega arith))

take-append : {A : Type 0} (f rest : List A) → take (length f) (f ++ rest) ≡ f
take-append [] rest = refl
take-append (x ∷ f) rest = ap (◌∷◌ x) (take-append f rest)

drop-append : {A : Type 0} (f rest : List A) → drop (length f) (f ++ rest) ≡ rest
drop-append [] rest = refl
drop-append (x ∷ f) rest = drop-append f rest

-- A field that stands at the offset is read whole, and the offset is left behind it.
pub read_lem :
    (n : ℕ) (message : String) (bytes : List ℕ) (offset : ℕ) (f rest : List ℕ)
    → 0 < n
    → drop offset bytes ≡ f ++ rest
    → length f ≡ n
    → (read n message bytes offset ≡ ok (f, offset + n)) × (drop (offset + n) bytes ≡ rest)
unfolding read
read_lem n message bytes offset f rest pos_n at len =
    let room : offset + n ≤ length bytes =
      omega (arith, length-drop offset bytes, ap length at, length-append f rest, len) in
    let taken : take n (drop offset bytes) ≡ f =
      ap (take n) at ∙ ap (λ (k : ℕ). take k (f ++ rest)) (sym len) ∙ take-append f rest in
    let left : drop n (drop offset bytes) ≡ rest =
      ap (drop n) at ∙ ap (λ (k : ℕ). drop k (f ++ rest)) (sym len) ∙ drop-append f rest in
    (ground (arith, room, taken), sym (drop-drop offset n bytes) ∙ left)

-- A field that the data ends in is refused, with the text given for it.
pub read-short :
    (n : ℕ) (message : String) (bytes : List ℕ) (offset : ℕ) (f : List ℕ)
    → drop offset bytes ≡ f
    → length f < n
    → read n message bytes offset ≡ err message
unfolding read
read-short n message bytes offset f at short =
    let room : length bytes < offset + n = omega (arith, length-drop offset bytes, ap length at) in
    ground (arith, room)

same_bytes_self : (bs : List ℕ) → same_bytes bs bs ≡ true
unfolding same_bytes
same_bytes_self [] = refl
same_bytes_self (b ∷ bs) = let rest = same_bytes_self bs in ground (arith, rest)

-- Data that starts with the discriminator passes the check, and the fields start behind it.
pub check_discriminator-accepts :
    (short invalid : String) (expected fields : List ℕ)
    → length expected ≡ 8
    → (check_discriminator short invalid expected (expected ++ fields) ≡ ok tt)
      × (drop 8 (expected ++ fields) ≡ fields)
unfolding check_discriminator bytes_equal
check_discriminator-accepts short invalid expected fields len =
    let head : take 8 (expected ++ fields) ≡ expected =
      ap (λ (k : ℕ). take k (expected ++ fields)) (sym len) ∙ take-append expected fields in
    let tail : drop 8 (expected ++ fields) ≡ fields =
      ap (λ (k : ℕ). drop k (expected ++ fields)) (sym len) ∙ drop-append expected fields in
    let same = same_bytes_self expected in
    let room = length-append expected fields in (ground (arith, head, same, room, len), tail)
