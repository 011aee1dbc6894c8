-- ===== src/Base/Decimal.antt =====
-- The decimal text of a number, as `%d` prints it.
use Prim.Native.Nat.{ℕ, zero, suc, ◌/◌, ◌%◌}
use Prim.Native.String
use Prim.Native.String.{String}
use margin_offer_system.Base.Tests.{ltb, eqb, if◌then◌else◌}

digit : ℕ → String
digit d =
    if eqb d 0
    then "0"
    else if eqb d 1
    then "1"
    else if eqb d 2
    then "2"
    else if eqb d 3
    then "3"
    else if eqb d 4
    then "4"
    else if eqb d 5
    then "5"
    else if eqb d 6
    then "6"
    else if eqb d 7
    then "7"
    else if eqb d 8
    then "8"
    else "9"

-- The digits of a number in front of a text, on fuel for each digit.
digits_before : ℕ → ℕ → String → String
unfolding digit
digits_before zero n rest = rest
digits_before (suc fuel) n rest =
    let text = String.◌++◌ (digit (n % 10)) rest in
    let more = digits_before fuel (n / 10) text in if ltb n 10 then text else more

-- A number has no more digits than its value and one.
unfoldable pub decimal : ℕ → String
unfolding digits_before
decimal n = digits_before (suc n) n ""
