-- ===== src/Prelude/Format.antt =====
-- The parts of Go's strconv, fmt and strings that the program uses: decimal numbers, `Sprintf`
-- with rendered arguments, and `Join`.
use Prim.Native.Nat.{ℕ, zero, suc, ◌/◌, ◌%◌}
use Prim.Native.Char.{Char, code}
use Prim.Native.String.{String, [], ◌∷◌, ◌++◌}
use mathlib.Core.Path.{◌≡◌, refl}
use mathlib.Core.Bool.{Bool, true, false, ◌||◌}
use mathlib.Core.List.{List}
use graph_code_challenge.Prelude.Tests.{ltb, eqb, if◌then◌else◌}
use graph_code_challenge.Prelude.Int.{ℤ, pos, negsuc}

unfoldable pub digit : ℕ → String
digit zero = "0"
digit (suc zero) = "1"
digit (suc (suc zero)) = "2"
digit (suc (suc (suc zero))) = "3"
digit (suc (suc (suc (suc zero)))) = "4"
digit (suc (suc (suc (suc (suc zero))))) = "5"
digit (suc (suc (suc (suc (suc (suc zero)))))) = "6"
digit (suc (suc (suc (suc (suc (suc (suc zero))))))) = "7"
digit (suc (suc (suc (suc (suc (suc (suc (suc zero)))))))) = "8"
digit _ = "9"

-- The digits of `n`, most significant first; the fuel bounds their number.
unfoldable pub digits_from : ℕ → ℕ → String
digits_from zero n = ""
digits_from (suc f) n =
    let more = digits_from f (n / 10) ++ digit (n % 10) in if ltb n 10 then digit n else more

-- `strconv.Itoa` of a natural number.
unfoldable pub decimal : ℕ → String
unfolding digits_from digit
decimal n = digits_from (suc n) n

-- `strconv.FormatInt(a, 10)`.
unfoldable pub format_int : ℤ → String
format_int (pos n) = decimal n
format_int (negsuc n) = "-" ++ decimal (suc n)

is_verb : Char → Bool
is_verb c = eqb (code c) b's' || eqb (code c) b'd'

-- `fmt.Sprintf`: each `%s` and `%d` takes the next argument, which is given rendered.
unfoldable pub sprintf : String → List String → String
unfolding is_verb
sprintf [] args = []
sprintf (c ∷ []) args = c ∷ []
sprintf (c ∷ d ∷ s) List.[] = c ∷ sprintf (d ∷ s) List.[]
sprintf (c ∷ d ∷ s) (List.◌∷◌ a args) =
    let filled = a ++ sprintf s args in
    let kept = c ∷ sprintf (d ∷ s) (List.◌∷◌ a args) in
    elim (eqb (code c) b'%') [
      | true ↦ elim (is_verb d) [ true ↦ filled | false ↦ kept ]
      | false ↦ kept
    ]

-- `strings.Join`.
unfoldable pub join : List String → String → String
join List.[] sep = ""
join (List.◌∷◌ a List.[]) sep = a
join (List.◌∷◌ a (List.◌∷◌ b rest)) sep = a ++ sep ++ join (List.◌∷◌ b rest) sep

format_tests :
    (sprintf "title must not exceed %d characters" (List.◌∷◌ (decimal 200) List.[])
      ≡ "title must not exceed 200 characters")
    × (format_int (negsuc 41) ≡ "-42")
    × (join (List.◌∷◌ "a" (List.◌∷◌ "b" List.[])) ", " ≡ "a, b")
unfolding sprintf format_int decimal join
format_tests = (refl, refl, refl)
