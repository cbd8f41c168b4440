-- ===== src/Text/Decimal.antt =====
-- `strconv.Atoi`, `strconv.Quote` and the verb `%d`, for Go's 64-bit `int`.
pub mod RoundTrip
pub mod Range
use Prim.Native.Nat.{◌%◌, ◌/◌}
use mathlib.Core.Bool.{◌||◌}
use mathlib.Core.Logic.{dite}
use mathlib.Core.WellFounded.{Acc, WellFounded}
use refresh.Prelude.{
  ℕ, zero, suc, ◌+◌, ◌-◌, ◌*◌, ◌<◌, ◌≤◌, ◌≡◌, refl, Bool, true, false, List, [], ◌∷◌, ◌++◌, Option,
  none, some, arith, ltb, leb, ◌==◌, if◌then◌else◌, dec_lt,
}
use refresh.Prelude.Order.{lt_wf}
use refresh.Prelude.Int.{ℤ, pos, negsuc, max_int}
use refresh.Text.{Text, txt, concat}

pub quotient-lt : (n : ℕ) → ¬ (n < 10) → n / 10 < n
quotient-lt n h = omega arith

unfoldable pub digits : (n : ℕ) → Acc ◌<◌ n → Text
digits n (Acc.intro _ smaller) =
    dite (dec_lt n 10) (λ _. (b'0' + n) ∷ [])
      (λ h. digits (n / 10) (smaller (n / 10) (quotient-lt n h)) ++ (b'0' + n % 10) ∷ [])

unfoldable pub format_nat : ℕ → Text
unfolding digits lt_wf dec_lt
format_nat n = digits n (lt_wf.apply n)

-- `%d`
unfoldable pub format_int : ℤ → Text
format_int (pos n) = format_nat n
format_int (negsuc n) = b'-' ∷ format_nat (suc n)

-- The `int` read, or the error of `*strconv.NumError`.
pub data Parsed (A : Type 0) : Type 0 where
  parsed : A → Parsed A
  invalid_syntax out_of_range : Parsed A

-- The loop of `strconv.ParseUint` at base 10: the value wraps past 64 bits nowhere, since the loop
-- stops with a range error first.
unfoldable pub scan : ℕ → Text → Parsed ℕ
scan acc [] = parsed acc
scan acc (c ∷ s) =
    let rest = scan (acc * 10 + (c - b'0')) s in
    if ltb c b'0' || ltb b'9' c
    then invalid_syntax
    else if ltb 18446744073709551615 (acc * 10 + (c - b'0'))
    then out_of_range
    else rest

unfoldable pub parse_uint : Text → Parsed ℕ
unfolding scan
parse_uint [] = invalid_syntax
parse_uint (c ∷ s) = scan 0 (c ∷ s)

abbrev pub negate : ℕ → ℤ
negate zero = pos 0
negate (suc n) = negsuc n

in_range_pos : Parsed ℕ → Parsed ℤ
in_range_pos (parsed n) = if ltb max_int n then out_of_range else parsed (pos n)
in_range_pos invalid_syntax = invalid_syntax
in_range_pos out_of_range = out_of_range

in_range_neg : Parsed ℕ → Parsed ℤ
in_range_neg (parsed n) = if ltb (max_int + 1) n then out_of_range else parsed (negate n)
in_range_neg invalid_syntax = invalid_syntax
in_range_neg out_of_range = out_of_range

-- `strconv.Atoi`
unfoldable pub atoi : Text → Parsed ℤ
unfolding parse_uint in_range_pos in_range_neg
atoi [] = invalid_syntax
atoi (c ∷ s) =
    if c == b'-'
    then in_range_neg (parse_uint s)
    else in_range_pos (parse_uint (if c == b'+' then s else c ∷ s))

hex_digit : ℕ → ℕ
hex_digit d = if ltb d 10 then b'0' + d else b'a' + (d - 10)

quote_char : ℕ → Text
unfolding hex_digit
quote_char c =
    if c == b'"' || c == 92
    then 92 ∷ c ∷ []
    else if c == 7
    then 92 ∷ b'a' ∷ []
    else if c == 8
    then 92 ∷ b'b' ∷ []
    else if c == 9
    then 92 ∷ b't' ∷ []
    else if c == 10
    then 92 ∷ b'n' ∷ []
    else if c == 11
    then 92 ∷ b'v' ∷ []
    else if c == 12
    then 92 ∷ b'f' ∷ []
    else if c == 13
    then 92 ∷ b'r' ∷ []
    else if ltb c 32 || c == 127
    then 92 ∷ b'x' ∷ hex_digit (c / 16) ∷ hex_digit (c % 16) ∷ []
    else c ∷ []

quote_chars : Text → Text
unfolding quote_char
quote_chars [] = []
quote_chars (c ∷ s) = quote_char c ++ quote_chars s

-- `strconv.Quote` and the verb `%q`. Code points above 127 count as printable.
unfoldable pub quote : Text → Text
unfolding quote_chars
quote s = b'"' ∷ quote_chars s ++ b'"' ∷ []
