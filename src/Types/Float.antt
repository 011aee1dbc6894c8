-- ===== src/Types/Float.antt =====
-- float64 as the program compares it. A finite value is given by the integer that it is a multiple
-- of 2^-1074 by, which is exact; the two zeros are one value, as in every comparison.
use margin_offer_system.Base.{
  ℕ, zero, suc, ◌^◌, ◌*◌, ◌/◌, ◌%◌, ◌+◌, ◌-◌, Bool, true, false, not, eqb, ltb, if◌then◌else◌,
}
use margin_offer_system.Base.Int.{ℤ, pos, ltb_ℤ}

pub data Float64 : Type 0 where
  nan neg_inf pos_inf : Float64
  finite : ℤ → Float64

-- `a < b`
abbrev pub lt : Float64 → Float64 → Bool
lt nan b = false
lt a nan = false
lt (finite a) (finite b) = ltb_ℤ a b
lt neg_inf neg_inf = false
lt neg_inf b = true
lt pos_inf b = false
lt (finite a) neg_inf = false
lt (finite a) pos_inf = true

-- `a <= b`
abbrev pub le : Float64 → Float64 → Bool
le nan b = false
le a nan = false
le (finite a) (finite b) = not (ltb_ℤ b a)
le neg_inf b = true
le pos_inf pos_inf = true
le pos_inf b = false
le (finite a) neg_inf = false
le (finite a) pos_inf = true

abbrev pub zero_float : Float64
zero_float = finite (pos 0)

-- The number of steps of 2^-1074 in 1.
unfoldable pub unit_in_the_last_place : ℕ
unit_in_the_last_place = 2 ^ 1074

unfoldable pub one_float : Float64
unfolding unit_in_the_last_place
one_float = finite (pos unit_in_the_last_place)

-- The number of binary digits, on as much fuel as digits are counted.
unfoldable pub digits : ℕ → ℕ → ℕ
digits zero n = 0
digits (suc fuel) n = let rest = digits fuel (n / 2) in if eqb n 0 then 0 else suc rest

-- The natural number nearest to a fraction, the even one of two.
unfoldable pub nearest : ℕ → ℕ → ℕ
nearest a b =
    if ltb (2 * (a % b)) b
    then a / b
    else if ltb b (2 * (a % b))
    then suc (a / b)
    else a / b + (a / b) % 2

-- A fraction of steps rounded to 53 binary digits, as a whole number of steps if it is at least 1.
-- The fuel is enough for a fraction below 2^1400.
unfoldable pub rounded : ℕ → ℕ → ℕ
unfolding digits nearest
rounded a b = let shift = 2 ^ (digits 1400 (a / b) - 53) in nearest a (b * shift) * shift

-- `float64(a) / b` for an unsigned word and a positive constant: rounded twice.
unfoldable pub word_over : ℕ → ℕ → Float64
unfolding rounded unit_in_the_last_place
word_over a b = finite (pos (rounded (rounded (a * unit_in_the_last_place) 1) b))

-- The float64 of a natural number below 2^53.
unfoldable pub whole : ℕ → Float64
unfolding unit_in_the_last_place
whole n = finite (pos (n * unit_in_the_last_place))

abbrev pub IsNumber : Float64 → Type 0
IsNumber nan = ⊥
IsNumber x = Unit
