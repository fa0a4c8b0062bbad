-- ===== src/Strconv.antt =====
-- Go's strconv as far as the program calls them: `ParseInt(s, 10, 64)`.
pub mod RoundTrip
use Prim.Native.Char.{Char, code}
use Prim.Native.String.{[], ◌∷◌, ◌++◌}
use graph_code_challenge.Prelude.{
  String, ℕ, ◌+◌, ◌-◌, ◌*◌, ◌/◌, ◌%◌, ◌^◌, ◌≡◌, refl, ℤ, pos, negsuc, Bool, true, false, ◌&&◌, ◌||◌,
  ltb, leb, eqb, if◌then◌else◌,
}

-- `NumError.Err` is `ErrSyntax` or `ErrRange`.
pub data Parsed (A : Type 0) : Type 0 where
  number : A → Parsed A
  bad_syntax : Parsed A
  out_of_range : Parsed A

unfoldable pub is_digit : Char → Bool
is_digit c = leb b'0' (code c) && leb (code c) b'9'

-- The loop of `ParseUint`: it stops at the first character that is no digit, or at the first digit
-- with which the number no longer fits 64 bits.
unfoldable pub parse_digits : ℕ → String → Parsed ℕ
unfolding is_digit
parse_digits n [] = number n
parse_digits n (c ∷ s) =
    let m = n * 10 + (code c - b'0') in
    let rest = parse_digits m s in
    elim (is_digit c) [
      | true ↦ elim (ltb m (2 ^ 64)) [ true ↦ rest | false ↦ out_of_range ]
      | false ↦ bad_syntax
    ]

unfoldable pub parse_uint : String → Parsed ℕ
unfolding parse_digits
parse_uint [] = bad_syntax
parse_uint (c ∷ s) = parse_digits 0 (c ∷ s)

positive : Parsed ℕ → Parsed ℤ
positive (number n) = if ltb n (2 ^ 63) then number (pos n) else out_of_range
positive bad_syntax = bad_syntax
positive out_of_range = out_of_range

abbrev negate : ℕ → ℤ
negate n = if eqb n 0 then pos 0 else negsuc (n - 1)

negative : Parsed ℕ → Parsed ℤ
negative (number n) = if leb n (2 ^ 63) then number (negate n) else out_of_range
negative bad_syntax = bad_syntax
negative out_of_range = out_of_range

-- `strconv.ParseInt(s, 10, 64)`
unfoldable pub parse_int : String → Parsed ℤ
unfolding positive negative
parse_int [] = bad_syntax
parse_int (c ∷ s) =
    if eqb (code c) b'-'
    then negative (parse_uint s)
    else if eqb (code c) b'+'
    then positive (parse_uint s)
    else positive (parse_uint (c ∷ s))

parse_tests :
    (parse_int "-42" ≡ number (negsuc 41))
    × (parse_int "+7" ≡ number (pos 7))
    × (parse_int "9223372036854775807" ≡ number (pos 9223372036854775807))
    × (parse_int "9223372036854775808" ≡ out_of_range)
    × (parse_int "18446744073709551616x" ≡ out_of_range)
    × (parse_int "9223372036854775808x" ≡ bad_syntax)
    × (parse_int "" ≡ bad_syntax)
    × (parse_int "-" ≡ bad_syntax)
unfolding parse_int parse_uint
parse_tests = (refl, refl, refl, refl, refl, refl, refl, refl)
