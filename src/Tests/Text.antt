-- ===== src/Tests/Text.antt =====
-- The text functions on small inputs.
use refresh.Prelude.{◌≡◌, refl, [], ◌∷◌, ◌++◌}
use refresh.Prelude.Int.{pos, negsuc}
use refresh.Text.{txt, trim_space, join}
use refresh.Text.Split.{split_n, cut}
use refresh.Text.Decimal.{parsed, invalid_syntax, out_of_range, atoi, format_int, format_nat, quote}

split_two : split_n (txt "1.31.4.5") b'.' 3 ≡ txt "1" ∷ txt "31" ∷ txt "4.5" ∷ []
unfolding split_n cut
split_two = refl

trimmed : trim_space (txt " \t1.31\n") ≡ txt "1.31"
unfolding trim_space
trimmed = refl

numbers :
    (atoi (txt "-42") ≡ parsed (negsuc 41))
    × (atoi (txt "+7") ≡ parsed (pos 7))
    × (atoi (txt "9223372036854775808") ≡ out_of_range)
    × (atoi (txt "99999999999999999999x") ≡ out_of_range)
    × (atoi (txt "1x") ≡ invalid_syntax)
unfolding atoi
numbers = (refl, refl, refl, refl, refl)

printed : format_int (negsuc 41) ++ format_int (pos 1030) ≡ txt "-421030"
unfolding format_int format_nat
printed = refl

quoted : quote (txt "a\"b\n") ≡ txt "\"a\\\"b\\n\""
unfolding quote
quoted = refl

joined : join (txt "; ") (txt "a" ∷ txt "b" ∷ txt "c" ∷ []) ≡ txt "a; b; c"
unfolding join
joined = refl
