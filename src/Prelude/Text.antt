-- ===== src/Prelude/Text.antt =====
-- Decimal text of a natural number, as `strconv.Itoa` and `%d` print it.
use Prim.Native.Nat.{ℕ, zero, suc, ◌+◌, ◌/◌, ◌%◌}
use Prim.Native.String.{String, ◌++◌}
use stile.Prelude.Tests.{ltb, ◌==◌, if◌then◌else◌}

digit : ℕ → String
digit d =
    if d == 0
    then "0"
    else if d == 1
    then "1"
    else if d == 2
    then "2"
    else if d == 3
    then "3"
    else if d == 4
    then "4"
    else if d == 5
    then "5"
    else if d == 6
    then "6"
    else if d == 7
    then "7"
    else if d == 8
    then "8"
    else "9"

-- A number has at most as many digits as its own value plus one, so `n + 1` rounds are enough.
digits : ℕ → ℕ → String
digits zero n = ""
digits (suc fuel) n =
    let before = digits fuel (n / 10) in if ltb n 10 then digit n else before ++ digit (n % 10)

unfoldable pub itoa : ℕ → String
unfolding digits digit
itoa n = digits (n + 1) n
