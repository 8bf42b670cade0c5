-- ===== src/Prelude/Format.antt =====
-- Texts that Python's f-strings make: their parts in order, and numbers in decimal digits.
use Prim.Native.Nat.{ℕ, zero, suc, ◌/◌, ◌%◌}
use Prim.Native.Char.{Char}
use Prim.Native.String.{String, ◌++◌ as str_append}
use mathlib.Core.List.{List, [], ◌∷◌}
use llm_errata.Prelude.Tests.{ltb, nat_eq, if◌then◌else◌}

unfoldable pub hex_char : ℕ → Char
hex_char d =
    if nat_eq d 0
    then "0"
    else if nat_eq d 1
    then "1"
    else if nat_eq d 2
    then "2"
    else if nat_eq d 3
    then "3"
    else if nat_eq d 4
    then "4"
    else if nat_eq d 5
    then "5"
    else if nat_eq d 6
    then "6"
    else if nat_eq d 7
    then "7"
    else if nat_eq d 8
    then "8"
    else if nat_eq d 9
    then "9"
    else if nat_eq d 10
    then "a"
    else if nat_eq d 11
    then "b"
    else if nat_eq d 12
    then "c"
    else if nat_eq d 13
    then "d"
    else if nat_eq d 14
    then "e"
    else "f"

-- An f-string, from its parts.
unfoldable pub concat : List String → String
concat [] = ""
concat (part ∷ parts) = str_append part (concat parts)

-- str(n): decimal digits in front of `rest`. `n / 10` falls, so `n + 1` rounds are enough.
digits_text : ℕ → ℕ → String → String
unfolding hex_char
digits_text zero n rest = rest
digits_text (suc fuel) n rest =
    let here = String.◌∷◌ (hex_char (n % 10)) rest in
    let more = digits_text fuel (n / 10) here in if ltb n 10 then here else more

unfoldable pub number_text : ℕ → String
unfolding digits_text
number_text n = digits_text (suc n) n ""
