-- ===== src/Strconv/RoundTrip.antt =====
-- Parsing the decimal form of an int64 gives it back.
use graph_code_challenge.Prelude.{
  ◌≤◌, refl, negsuc, pos, true, IsInt64, ℤ, format_int, decimal, ◌%◌, ◌/◌, ap, ◌∙◌, ltb→lt, ltb,
  lt→ltb, Bool-cases, ◌^◌, ◌<◌, digits_from, digit, inr, inl, suc, zero, ◌-◌, ◌+◌, ◌*◌, arith,
}
use Prim.Native.Char.{Char, code}
use Prim.Native.String.{String, ◌++◌}
use text.Mathlib.TextLemmas.{nil-append, cons-append}
use graph_code_challenge.Strconv.{
  negative, is_digit, parse_uint, parse_int, ◌≡◌, ℕ, parse_digits, number, bad_syntax, out_of_range,
  Parsed,
}

abbrev then_parse : Parsed ℕ → String → Parsed ℕ
then_parse (number n) t = parse_digits n t
then_parse bad_syntax t = bad_syntax
then_parse out_of_range t = out_of_range

parse_digits-append :
    (n : ℕ) (s t : String) → parse_digits n (s ++ t) ≡ then_parse (parse_digits n s) t
unfolding parse_digits
parse_digits-append n String.[] t = rw nil-append
parse_digits-append n (String.◌∷◌ c s) t =
    rw cons-append (ground (arith, parse_digits-append (n * 10 + (code c - b'0')) s t))

-- One digit, read after the number `n`.
parse_digit :
    (n d : ℕ) → d < 10 → n * 10 + d < 2 ^ 64 → parse_digits n (digit d) ≡ number (n * 10 + d)
unfolding parse_digits digit
parse_digit n zero h fits = rw (lt→ltb (n * 10 + 0) (2 ^ 64) fits, parse_digits)
parse_digit n (suc zero) h fits = rw (lt→ltb (n * 10 + 1) (2 ^ 64) fits, parse_digits)
parse_digit n (suc (suc zero)) h fits = rw (lt→ltb (n * 10 + 2) (2 ^ 64) fits, parse_digits)
parse_digit n (suc (suc (suc zero))) h fits = rw (lt→ltb (n * 10 + 3) (2 ^ 64) fits, parse_digits)
parse_digit n (suc (suc (suc (suc zero)))) h fits =
    rw (lt→ltb (n * 10 + 4) (2 ^ 64) fits, parse_digits)
parse_digit n (suc (suc (suc (suc (suc zero))))) h fits =
    rw (lt→ltb (n * 10 + 5) (2 ^ 64) fits, parse_digits)
parse_digit n (suc (suc (suc (suc (suc (suc zero)))))) h fits =
    rw (lt→ltb (n * 10 + 6) (2 ^ 64) fits, parse_digits)
parse_digit n (suc (suc (suc (suc (suc (suc (suc zero))))))) h fits =
    rw (lt→ltb (n * 10 + 7) (2 ^ 64) fits, parse_digits)
parse_digit n (suc (suc (suc (suc (suc (suc (suc (suc zero)))))))) h fits =
    rw (lt→ltb (n * 10 + 8) (2 ^ 64) fits, parse_digits)
parse_digit n (suc (suc (suc (suc (suc (suc (suc (suc (suc zero))))))))) h fits =
    rw (lt→ltb (n * 10 + 9) (2 ^ 64) fits, parse_digits)
parse_digit n (suc (suc (suc (suc (suc (suc (suc (suc (suc (suc d)))))))))) h fits =
    absurd (omega arith)

parse_digits-digits_from :
    (f n : ℕ) → n < f → n < 2 ^ 64 → parse_digits 0 (digits_from f n) ≡ number n
unfolding digits_from
parse_digits-digits_from zero n h fits = absurd (omega arith)
parse_digits-digits_from (suc f) n h fits = elim (Bool-cases (ltb n 10)) [
  | inl small ↦
      rw small (parse_digit 0 n (ltb→lt n 10 small) (omega arith) ∙ ap number (omega arith))
  | inr big ↦
      rw
        (big, parse_digits-append, parse_digits-digits_from f (n / 10) (ground arith) (omega arith))
        (parse_digit (n / 10) (n % 10) (omega arith) (omega arith) ∙ ap number (omega arith))
]

abbrev BeginsWithDigit : String → Type 0
BeginsWithDigit t = (c : Char) × (s : String) × (t ≡ String.◌∷◌ c s) × (is_digit c ≡ true)

digit-cons : (d : ℕ) → BeginsWithDigit (digit d)
unfolding digit is_digit
digit-cons zero = (_, "", refl, refl)
digit-cons (suc zero) = (_, "", refl, refl)
digit-cons (suc (suc zero)) = (_, "", refl, refl)
digit-cons (suc (suc (suc zero))) = (_, "", refl, refl)
digit-cons (suc (suc (suc (suc zero)))) = (_, "", refl, refl)
digit-cons (suc (suc (suc (suc (suc zero))))) = (_, "", refl, refl)
digit-cons (suc (suc (suc (suc (suc (suc zero)))))) = (_, "", refl, refl)
digit-cons (suc (suc (suc (suc (suc (suc (suc zero))))))) = (_, "", refl, refl)
digit-cons (suc (suc (suc (suc (suc (suc (suc (suc zero)))))))) = (_, "", refl, refl)
digit-cons (suc (suc (suc (suc (suc (suc (suc (suc (suc d))))))))) = (_, "", refl, refl)

append-cons : (t u : String) → BeginsWithDigit t → BeginsWithDigit (t ++ u)
append-cons t u (c, s, e, d) = (c, s ++ u, rw (e, cons-append), d)

digits_from-cons : (f n : ℕ) → n < f → BeginsWithDigit (digits_from f n)
unfolding digits_from
digits_from-cons zero n h = absurd (omega arith)
digits_from-cons (suc f) n h = elim (Bool-cases (ltb n 10)) [
  | inl small ↦ rw small (digit-cons n)
  | inr big ↦ rw big (
      append-cons (digits_from f (n / 10)) (digit (n % 10))
        (digits_from-cons f (n / 10) (ground arith)))
]

-- The decimal form of a natural number is not empty and begins with a digit.
decimal-cons : (n : ℕ) → BeginsWithDigit (decimal n)
unfolding decimal
decimal-cons n = digits_from-cons (suc n) n (omega arith)

parse_uint-decimal : (n : ℕ) → n < 2 ^ 64 → parse_uint (decimal n) ≡ number n
unfolding parse_uint
parse_uint-decimal n h =
    let (c, s, e, _) = decimal-cons n in
    rw e (rw (← e) (unfold decimal in parse_digits-digits_from (suc n) n (omega arith) h))

parse_int-digit :
    (t : String) {n : ℕ}
    → BeginsWithDigit t
    → parse_uint t ≡ number n
    → n < 2 ^ 63
    → parse_int t ≡ number (pos n)
unfolding parse_int is_digit
parse_int-digit t {n} (c, s, e, d) parsed h =
    let parsed' = rw e at parsed in rw e (ground (arith, parsed'))

parse_int-minus : (t : String) → parse_int ("-" ++ t) ≡ negative (parse_uint t)
unfolding parse_int
parse_int-minus t = rw (cons-append, nil-append)

negative-suc : (n : ℕ) → suc n ≤ 2 ^ 63 → negative (number (suc n)) ≡ number (negsuc n)
unfolding negative
negative-suc n h = ground arith

-- Printing an int64 and parsing the text gives the number back.
pub parse_int-format_int : (a : ℤ) → IsInt64 a → parse_int (format_int a) ≡ number a
unfolding format_int
parse_int-format_int (pos n) h =
    parse_int-digit (decimal n) (decimal-cons n) (parse_uint-decimal n (omega arith)) h.0
parse_int-format_int (negsuc n) h =
    rw (parse_int-minus, parse_uint-decimal (suc n) (omega arith)) (negative-suc n h.1)
