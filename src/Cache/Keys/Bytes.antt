-- ===== src/Cache/Keys/Bytes.antt =====
-- The bytes of a character, and their spelling in hexadecimal digits, determine it.
use graph_code_challenge.Cache.Keys.{percent, hex_digit, utf8, percents}
use Prim.Native.Char.{Char, char, code}
use Prim.Native.String.{String, ◌∷◌, ◌++◌}
use mathlib.Core.List.{List}
use text.Mathlib.TextLemmas.{cons-append, cons-eq-cons, append_cancel_left, append_assoc}
use graph_code_challenge.Prelude.{
  ◌+◌, ◌∙◌, ap, ◌%◌, ◌/◌, sym, ltb, if◌then◌else◌, Bool-cases, length, All, digit, ◌≡◌, arith, ℕ,
  ◌<◌, inr, inl, suc, zero, refl,
}

pub code_bound : (c : Char) → code c < 0x110000
code_bound (char n p) = ground arith

-- The number of a hexadecimal digit's character.
unfoldable pub hex_code : ℕ → ℕ
hex_code n = if ltb n 10 then 48 + n else 55 + n

hex_letter :
    (n : ℕ)
    → suc (suc (suc (suc (suc (suc (suc (suc (suc (suc n))))))))) < 16
    → let m = suc (suc (suc (suc (suc (suc (suc (suc (suc (suc n))))))))) in
      (c : Char) × (hex_digit m ≡ c ∷ "") × (code c ≡ hex_code m)
unfolding hex_digit hex_code
hex_letter zero h = (_, refl, refl)
hex_letter (suc zero) h = (_, refl, refl)
hex_letter (suc (suc zero)) h = (_, refl, refl)
hex_letter (suc (suc (suc zero))) h = (_, refl, refl)
hex_letter (suc (suc (suc (suc zero)))) h = (_, refl, refl)
hex_letter (suc (suc (suc (suc (suc zero))))) h = (_, refl, refl)
hex_letter (suc (suc (suc (suc (suc (suc n)))))) h = absurd (omega arith)

pub hex_digit-cons : (n : ℕ) → n < 16 → (c : Char) × (hex_digit n ≡ c ∷ "") × (code c ≡ hex_code n)
unfolding hex_digit digit hex_code
hex_digit-cons zero h = (_, refl, refl)
hex_digit-cons (suc zero) h = (_, refl, refl)
hex_digit-cons (suc (suc zero)) h = (_, refl, refl)
hex_digit-cons (suc (suc (suc zero))) h = (_, refl, refl)
hex_digit-cons (suc (suc (suc (suc zero)))) h = (_, refl, refl)
hex_digit-cons (suc (suc (suc (suc (suc zero))))) h = (_, refl, refl)
hex_digit-cons (suc (suc (suc (suc (suc (suc zero)))))) h = (_, refl, refl)
hex_digit-cons (suc (suc (suc (suc (suc (suc (suc zero))))))) h = (_, refl, refl)
hex_digit-cons (suc (suc (suc (suc (suc (suc (suc (suc zero)))))))) h = (_, refl, refl)
hex_digit-cons (suc (suc (suc (suc (suc (suc (suc (suc (suc zero))))))))) h = (_, refl, refl)
hex_digit-cons (suc (suc (suc (suc (suc (suc (suc (suc (suc (suc n)))))))))) h = hex_letter n h

hex_code_inj : (m n : ℕ) → m < 16 → n < 16 → hex_code m ≡ hex_code n → m ≡ n
unfolding hex_code
hex_code_inj m n h k e = ground arith

pub single_inj : (c x : Char) (s t : String) → (c ∷ "") ++ s ≡ (x ∷ "") ++ t → (c ≡ x) × (s ≡ t)
single_inj c x s t e =
    let (heads, tails) = cons-eq-cons.0 (sym (cons-append c "" s) ∙ e ∙ cons-append x "" t) in
    (heads, append_cancel_left "" s t tails)

-- A text that begins with a hexadecimal digit determines it and the rest.
hex_digit_inj :
    (m n : ℕ) (s t : String)
    → m < 16
    → n < 16
    → hex_digit m ++ s ≡ hex_digit n ++ t
    → (m ≡ n) × (s ≡ t)
hex_digit_inj m n s t h k e =
    let (c, is_c, code_c) = hex_digit-cons m h in
    let (x, is_x, code_x) = hex_digit-cons n k in
    let (heads, tails) =
      single_inj c x s t (sym (ap (λ u. u ++ s) is_c) ∙ e ∙ ap (λ u. u ++ t) is_x) in
    (hex_code_inj m n h k (sym code_c ∙ ap code heads ∙ code_x), tails)

pub percent-append :
    (n : ℕ) (s : String) → percent n ++ s ≡ "%" ++ (hex_digit (n / 16) ++ (hex_digit (n % 16) ++ s))
unfolding percent
percent-append n s = rw (append_assoc, append_assoc) refl

pub percent_inj :
    (m n : ℕ) (s t : String)
    → m < 256
    → n < 256
    → percent m ++ s ≡ percent n ++ t
    → (m ≡ n) × (s ≡ t)
percent_inj m n s t h k e =
    let (upper, rest) =
      hex_digit_inj (m / 16) (n / 16) (hex_digit (m % 16) ++ s) (hex_digit (n % 16) ++ t)
        (omega arith) (omega arith)
        (append_cancel_left "%" _ _ (sym (percent-append m s) ∙ e ∙ percent-append n t)) in
    let (lower, same) = hex_digit_inj (m % 16) (n % 16) s t (omega arith) (omega arith) rest in
    (omega (arith, upper, lower), same)

abbrev pub AreBytes : List ℕ → Type 0
AreBytes bs = All (λ b. b < 256) bs

pub percents_inj :
    (xs ys : List ℕ) (s t : String)
    → length xs ≡ length ys
    → AreBytes xs
    → AreBytes ys
    → percents xs ++ s ≡ percents ys ++ t
    → (xs ≡ ys) × (s ≡ t)
unfolding percents
percents_inj List.[] List.[] s t l h k e = (refl, append_cancel_left "" s t e)
percents_inj List.[] (List.◌∷◌ y ys) s t l h k e = absurd (omega arith)
percents_inj (List.◌∷◌ x xs) List.[] s t l h k e = absurd (omega arith)
percents_inj (List.◌∷◌ x xs) (List.◌∷◌ y ys) s t l (h, hs) (k, ks) e =
    let (first, rest) = percent_inj x y (percents xs ++ s) (percents ys ++ t) h k (
      sym (append_assoc (percent x) (percents xs) s)
      ∙ e
      ∙ append_assoc (percent y) (percents ys) t) in
    let (more, same) = percents_inj xs ys s t (omega arith) hs ks rest in (cc, same)

-- How many bytes follow the first one.
unfoldable pub following : ℕ → ℕ
following b = if ltb b 0x80 then 0 else if ltb b 0xe0 then 1 else if ltb b 0xf0 then 2 else 3

pub record Encoded (n : ℕ) : Type 0 where
  pub first : ℕ
  pub rest : List ℕ
  pub bytes : utf8 n ≡ List.◌∷◌ first rest
  pub in_range : AreBytes (List.◌∷◌ first rest)
  pub number : length rest ≡ following first

pub utf8-Encoded : (n : ℕ) → n < 0x110000 → Encoded n
unfolding utf8 following
utf8-Encoded n h = elim (Bool-cases (ltb n 0x80)) [
  | inl e ↦ record {
    first = n;
    rest = List.[];
    bytes = rw e refl;
    in_range = (ground arith, tt);
    number = ground arith;
  }
  | inr e ↦ elim (Bool-cases (ltb n 0x800)) [
    | inl f ↦ record {
      first = 0xc0 + n / 64;
      rest = List.◌∷◌ (0x80 + n % 64) List.[];
      bytes = rw (e, f) refl;
      in_range = (ground arith, (omega arith, tt));
      number = ground arith;
    }
    | inr f ↦ elim (Bool-cases (ltb n 0x10000)) [
      | inl g ↦ record {
        first = 0xe0 + n / 4096;
        rest = List.◌∷◌ (0x80 + n / 64 % 64) (List.◌∷◌ (0x80 + n % 64) List.[]);
        bytes = rw (e, f, g) refl;
        in_range = (ground arith, (omega arith, (omega arith, tt)));
        number = ground arith;
      }
      | inr g ↦ record {
        first = 0xf0 + n / 262144;
        rest =
            List.◌∷◌ (0x80 + n / 4096 % 64)
              (List.◌∷◌ (0x80 + n / 64 % 64) (List.◌∷◌ (0x80 + n % 64) List.[]));
        bytes = rw (e, f, g) refl;
        in_range = (omega arith, (omega arith, (omega arith, (omega arith, tt))));
        number = ground arith;
      }
    ]
  ]
]

pub utf8_inj : (m n : ℕ) → m < 0x110000 → n < 0x110000 → utf8 m ≡ utf8 n → m ≡ n
unfolding utf8
utf8_inj m n h k e = ground arith
