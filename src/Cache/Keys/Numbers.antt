-- ===== src/Cache/Keys/Numbers.antt =====
-- Decimal numbers in keys: they are injective and hold no colon.
use Prim.Native.Char.{Char, code}
use Prim.Native.String.{[], ◌∷◌, ◌++◌}
use text.Mathlib.TextLemmas.{nil-append, cons-append, cons-eq-cons, append_cancel_left}
use graph_code_challenge.Prelude.{
  ℕ, zero, suc, ◌+◌, ◌-◌, ◌*◌, ◌/◌, ◌%◌, ◌<◌, ◌≡◌, refl, sym, ap, ◌∙◌, ◌≢◌, String, ℤ, pos, negsuc,
  digit, digits_from, decimal, format_int, arith, Bool-cases, ltb, inl, inr, ltb→lt,
}

abbrev pub NoColon : String → Type 0
NoColon [] = Unit
NoColon (c ∷ s) = (code c ≢ b':') × NoColon s

pub NoColon-append : (s t : String) → NoColon s → NoColon t → NoColon (s ++ t)
NoColon-append [] t h k = rw nil-append k
NoColon-append (c ∷ s) t h k = rw cons-append (h.0, NoColon-append s t h.1 k)

-- The number that digits spell, after the number `n`.
spell : ℕ → String → ℕ
spell n [] = n
spell n (c ∷ s) = spell (n * 10 + (code c - b'0')) s

spell-append : (n : ℕ) (s t : String) → spell n (s ++ t) ≡ spell (spell n s) t
unfolding spell
spell-append n [] t = rw nil-append
spell-append n (c ∷ s) t = rw cons-append (spell-append (n * 10 + (code c - b'0')) s t)

-- A text without colons that begins with no minus sign.
abbrev IsNumeral : String → Type 0
IsNumeral t = (c : Char) × (s : String) × (t ≡ c ∷ s) × (code c ≢ b'-') × NoColon t

-- A digit spells itself.
spell-digit : (n d : ℕ) → d < 10 → spell n (digit d) ≡ n * 10 + d
unfolding spell digit
spell-digit n zero h = refl
spell-digit n (suc zero) h = refl
spell-digit n (suc (suc zero)) h = refl
spell-digit n (suc (suc (suc zero))) h = refl
spell-digit n (suc (suc (suc (suc zero)))) h = refl
spell-digit n (suc (suc (suc (suc (suc zero))))) h = refl
spell-digit n (suc (suc (suc (suc (suc (suc zero)))))) h = refl
spell-digit n (suc (suc (suc (suc (suc (suc (suc zero))))))) h = refl
spell-digit n (suc (suc (suc (suc (suc (suc (suc (suc zero)))))))) h = refl
spell-digit n (suc (suc (suc (suc (suc (suc (suc (suc (suc zero))))))))) h = refl
spell-digit n (suc (suc (suc (suc (suc (suc (suc (suc (suc (suc d)))))))))) h = absurd (omega arith)

digit-IsNumeral : (d : ℕ) → IsNumeral (digit d)
unfolding digit
digit-IsNumeral zero = (_, "", refl, omega arith, (omega arith, tt))
digit-IsNumeral (suc zero) = (_, "", refl, omega arith, (omega arith, tt))
digit-IsNumeral (suc (suc zero)) = (_, "", refl, omega arith, (omega arith, tt))
digit-IsNumeral (suc (suc (suc zero))) = (_, "", refl, omega arith, (omega arith, tt))
digit-IsNumeral (suc (suc (suc (suc zero)))) = (_, "", refl, omega arith, (omega arith, tt))
digit-IsNumeral (suc (suc (suc (suc (suc zero))))) = (_, "", refl, omega arith, (omega arith, tt))
digit-IsNumeral (suc (suc (suc (suc (suc (suc zero)))))) =
    (_, "", refl, omega arith, (omega arith, tt))
digit-IsNumeral (suc (suc (suc (suc (suc (suc (suc zero))))))) =
    (_, "", refl, omega arith, (omega arith, tt))
digit-IsNumeral (suc (suc (suc (suc (suc (suc (suc (suc zero)))))))) =
    (_, "", refl, omega arith, (omega arith, tt))
digit-IsNumeral (suc (suc (suc (suc (suc (suc (suc (suc (suc d))))))))) =
    (_, "", refl, omega arith, (omega arith, tt))

spell-digits_from : (f n : ℕ) → n < f → spell 0 (digits_from f n) ≡ n
unfolding digits_from
spell-digits_from zero n h = absurd (omega arith)
spell-digits_from (suc f) n h = elim (Bool-cases (ltb n 10)) [
  | inl small ↦ rw small (spell-digit 0 n (ltb→lt n 10 small) ∙ omega arith)
  | inr big ↦
      rw (big, spell-append, spell-digits_from f (n / 10) (ground arith))
        (spell-digit (n / 10) (n % 10) (omega arith) ∙ omega arith)
]

append-IsNumeral : (t u : String) → IsNumeral t → NoColon u → IsNumeral (t ++ u)
append-IsNumeral t u (c, s, e, d, clean) h =
    (c, s ++ u, rw (e, cons-append), d, NoColon-append t u clean h)

digits_from-IsNumeral : (f n : ℕ) → n < f → IsNumeral (digits_from f n)
unfolding digits_from
digits_from-IsNumeral zero n h = absurd (omega arith)
digits_from-IsNumeral (suc f) n h = elim (Bool-cases (ltb n 10)) [
  | inl small ↦ rw small (digit-IsNumeral n)
  | inr big ↦ rw big (
      append-IsNumeral (digits_from f (n / 10)) (digit (n % 10))
        (digits_from-IsNumeral f (n / 10) (ground arith)) (digit-IsNumeral (n % 10)).4)
]

decimal-IsNumeral : (n : ℕ) → IsNumeral (decimal n)
unfolding decimal
decimal-IsNumeral n = digits_from-IsNumeral (suc n) n (omega arith)

decimal-injective : (m n : ℕ) → decimal m ≡ decimal n → m ≡ n
unfolding decimal
decimal-injective m n e =
    sym (spell-digits_from (suc m) m (omega arith))
    ∙ ap (spell 0) e
    ∙ spell-digits_from (suc n) n (omega arith)

minus-ne-decimal : (m n : ℕ) → decimal m ≢ "-" ++ decimal n
minus-ne-decimal m n e =
    let (c, s, here, other, _) = decimal-IsNumeral m in
    other (ap code (cons-eq-cons.0 (sym here ∙ e ∙ cons-append _ "" (decimal n))).0)

pub format_int-injective : (a b : ℤ) → format_int a ≡ format_int b → a ≡ b
unfolding format_int
format_int-injective (pos m) (pos n) e = ap pos (decimal-injective m n e)
format_int-injective (pos m) (negsuc n) e = absurd (minus-ne-decimal m (suc n) e)
format_int-injective (negsuc m) (pos n) e = absurd (minus-ne-decimal n (suc m) (sym e))
format_int-injective (negsuc m) (negsuc n) e =
    ap negsuc (omega (arith, decimal-injective (suc m) (suc n) (append_cancel_left "-" _ _ e)))

pub format_int-NoColon : (a : ℤ) → NoColon (format_int a)
unfolding format_int
format_int-NoColon (pos n) = (decimal-IsNumeral n).4
format_int-NoColon (negsuc n) =
    NoColon-append "-" (decimal (suc n)) (ground arith, tt) (decimal-IsNumeral (suc n)).4
