-- ===== src/Text.antt =====
-- Decimal numbers as `format!` writes them.
pub mod Words
use Prim.Native.String.{◌++◌}
use dtn7_rs.Prelude.{ℕ, zero, suc, ◌/◌, ◌%◌, ◌≡◌, refl, String, ltb, ◌==◌, nat_eq, if◌then◌else◌}

digit : ℕ → String
digit n =
    if n == 0
    then "0"
    else if n == 1
    then "1"
    else if n == 2
    then "2"
    else if n == 3
    then "3"
    else if n == 4
    then "4"
    else if n == 5
    then "5"
    else if n == 6
    then "6"
    else if n == 7
    then "7"
    else if n == 8
    then "8"
    else "9"

digits : ℕ → ℕ → String
unfolding digit
digits zero n = ""
digits (suc fuel) n =
    let front = digits fuel (n / 10) in if ltb n 10 then digit n else front ++ digit (n % 10)

-- A number of at most twenty digits, which every u64 is.
unfoldable pub decimal : ℕ → String
unfolding digits
decimal n = digits 20 n

decimal_test : decimal 4556 ≡ "4556"
unfolding decimal
decimal_test = refl
