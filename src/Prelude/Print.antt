-- ===== src/Prelude/Print.antt =====
-- Numbers as native texts.
use Prim.Native.Nat.{ℕ, zero, suc, ◌/◌, ◌%◌}
use Prim.Native.String
use Prim.Native.String.{String}
use nvidia_omoda.Prelude.Tests.{eqb, ltb, if◌then◌else◌}

abbrev pub digit : ℕ → String
digit n =
    if eqb n 0
    then "0"
    else if eqb n 1
    then "1"
    else if eqb n 2
    then "2"
    else if eqb n 3
    then "3"
    else if eqb n 4
    then "4"
    else if eqb n 5
    then "5"
    else if eqb n 6
    then "6"
    else if eqb n 7
    then "7"
    else if eqb n 8
    then "8"
    else "9"

-- `String(n)`; n + 1 rounds are enough.
unfoldable pub print_number : ℕ → ℕ → String
print_number zero n = ""
print_number (suc f) n =
    let before = print_number f (n / 10) in
    if ltb n 10 then digit n else String.◌++◌ before (digit (n % 10))
