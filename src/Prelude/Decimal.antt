-- ===== src/Prelude/Decimal.antt =====
-- Decimal text of an unsigned number: `usize::to_string` (`Display`) and `str::parse::<usize>` of
-- the standard library, for a 64-bit `usize`.
pub mod RoundTrip
use Prim.Native.Char.{Char, code}
use Prim.Native.String
use turbomcp.Prelude.{
  ℕ, zero, suc, ◌+◌, ◌-◌, ◌*◌, ◌/◌, ◌%◌, ◌^◌, String, ◌≡◌, refl, ◌||◌, Option, none, some, ltb, leb,
  if◌then◌else◌, ◌==ℕ◌,
}

abbrev pub digit_char : ℕ → Char
digit_char zero = "0"
digit_char (suc zero) = "1"
digit_char (suc (suc zero)) = "2"
digit_char (suc (suc (suc zero))) = "3"
digit_char (suc (suc (suc (suc zero)))) = "4"
digit_char (suc (suc (suc (suc (suc zero))))) = "5"
digit_char (suc (suc (suc (suc (suc (suc zero)))))) = "6"
digit_char (suc (suc (suc (suc (suc (suc (suc zero))))))) = "7"
digit_char (suc (suc (suc (suc (suc (suc (suc (suc zero)))))))) = "8"
digit_char (suc (suc (suc (suc (suc (suc (suc (suc (suc _))))))))) = "9"

-- The digits of a number before the text written so far; each round divides by ten, so that the
-- number itself bounds the rounds.
unfoldable pub emit : ℕ → ℕ → String → String
emit zero n out = String.◌∷◌ (digit_char (n % 10)) out
emit (suc fuel) n out =
    let out' = String.◌∷◌ (digit_char (n % 10)) out in
    let more = emit fuel (n / 10) out' in if ltb n 10 then out' else more

unfoldable pub to_string : ℕ → String
unfolding emit
to_string n = emit n n String.[]

abbrev pub usize_bound : ℕ
usize_bound = 2 ^ 64

-- One digit more; anything else, and a value that leaves the type, is an error.
unfoldable pub scan : ℕ → String → Option ℕ
scan n String.[] = some n
scan n (String.◌∷◌ c s) =
    let d = code c - b'0' in
    let rest = scan (n * 10 + d) s in
    if ltb (code c) b'0' || ltb b'9' (code c)
    then none
    else if leb usize_bound (n * 10 + d)
    then none
    else rest

scan_digits : String → Option ℕ
unfolding scan
scan_digits String.[] = none
scan_digits (String.◌∷◌ c s) = scan 0 (String.◌∷◌ c s)

unfoldable pub parse : String → Option ℕ
unfolding scan_digits
parse String.[] = none
parse (String.◌∷◌ c s) = if code c ==ℕ b'+' then scan_digits s else scan_digits (String.◌∷◌ c s)

to_string_tests : (to_string 0 ≡ "0") × (to_string 105 ≡ "105") × (to_string 98 ≡ "98")
unfolding to_string
to_string_tests = (refl, refl, refl)

parse_tests :
    (parse "105" ≡ some 105)
    × (parse "+7" ≡ some 7)
    × (parse "" ≡ none)
    × (parse "-1" ≡ none)
    × (parse "18446744073709551616" ≡ none)
    × (parse "18446744073709551615" ≡ some (2 ^ 64 - 1))
unfolding parse
parse_tests = (refl, refl, refl, refl, refl, refl)
