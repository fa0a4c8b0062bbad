-- ===== src/Cache/Keys/Escape.antt =====
-- `query_escape` is injective, and what it gives holds no colon.
use graph_code_challenge.Cache.Keys.Numbers.{NoColon-append, NoColon}
use graph_code_challenge.Cache.Keys.Bytes.{
  hex_digit-cons, hex_code, utf8_inj, percents_inj, AreBytes, percent_inj, code_bound, single_inj,
  utf8-Encoded, percent-append, following,
}
use graph_code_challenge.Cache.Keys.{
  hex_digit, query_escape, percent, utf8, ℕ, percents, is_unreserved, escape_char,
}
use Prim.Native.Char.{Char, char, code}
use Prim.Native.String.{String, [], ◌∷◌, ◌++◌}
use mathlib.Core.List.{List}
use text.Mathlib.TextLemmas.{cons-append, append_cancel_left, append-nil, append_assoc, nil≢cons}
use text.Mathlib.TextEquality.{Char-path}
use graph_code_challenge.Prelude.{
  ◌%◌, subst, ◌/◌, length, suc, ◌∙◌, sym, eqb, ◌<◌, ap, arith, Bool-cases, ◌≡◌, ◌≢◌, inr, inl, true,
  refl,
}

-- What a character becomes: itself, a plus sign, or a percent sign and more.
data Escaped (c : Char) : Type 0 where
  kept : escape_char c ≡ c ∷ "" → code c ≢ b'%' → code c ≢ b'+' → code c ≢ b':' → Escaped c
  space : escape_char c ≡ "+" → code c ≡ b' ' → Escaped c
  bytes :
      (u : String) → escape_char c ≡ percents (utf8 (code c)) → escape_char c ≡ "%" ++ u → Escaped c

unreserved-not_percent : (n : ℕ) → is_unreserved n ≡ true → (n ≢ b'%') × (n ≢ b'+') × (n ≢ b':')
unfolding is_unreserved
unreserved-not_percent n h = ground arith

percents-cons : (b : ℕ) (bs : List ℕ) → (u : String) × (percents (List.◌∷◌ b bs) ≡ "%" ++ u)
unfolding percents
percents-cons b bs = (_, percent-append b (percents bs))

escape_char-Escaped : (c : Char) → Escaped c
unfolding escape_char
escape_char-Escaped c = elim (Bool-cases (is_unreserved (code c))) [
  | inl e ↦ let (a, b, d) = unreserved-not_percent (code c) e in kept (rw e refl) a b d
  | inr e ↦ elim (Bool-cases (eqb (code c) b' ')) [
    | inl f ↦ space (rw (e, f) refl) (ground arith)
    | inr f ↦
        let encoded = utf8-Encoded (code c) (code_bound c) in
        let (u, begins) = percents-cons encoded.first encoded.rest in
        bytes u (rw (e, f) refl) (rw (e, f) (ap percents encoded.bytes ∙ begins))
  ]
]

abbrev percent_sign : Char
percent_sign = char 37 tt

abbrev plus_sign : Char
plus_sign = char 43 tt

abbrev Begins : Char → String → Type 0
Begins c e = (u : String) × (e ≡ (c ∷ "") ++ u)

-- Two texts that begin with different characters differ.
heads_differ :
    (c x : Char) (e f s t : String) → Begins c e → Begins x f → code c ≢ code x → e ++ s ≢ f ++ t
heads_differ c x e f s t (u, p) (v, q) other h = other (
    ap code
      (single_inj c x (u ++ s) (v ++ t) (
        sym (append_assoc (c ∷ "") u s)
        ∙ sym (ap (λ w. w ++ s) p)
        ∙ h
        ∙ ap (λ w. w ++ t) q
        ∙ append_assoc (x ∷ "") v t)).0)

bytes_inj :
    (m n : ℕ) (s t : String)
    → m < 0x110000
    → n < 0x110000
    → percents (utf8 m) ++ s ≡ percents (utf8 n) ++ t
    → (m ≡ n) × (s ≡ t)
unfolding percents following
bytes_inj m n s t h k e =
    let x = utf8-Encoded m h in
    let y = utf8-Encoded n k in
    let whole : percents (List.◌∷◌ x.first x.rest) ++ s ≡ percents (List.◌∷◌ y.first y.rest) ++ t =
      sym (ap (λ w. percents w ++ s) x.bytes) ∙ e ∙ ap (λ w. percents w ++ t) y.bytes in
    let (first, _) =
      percent_inj x.first y.first (percents x.rest ++ s) (percents y.rest ++ t) x.in_range.0
        y.in_range.0
        (sym (append_assoc (percent x.first) (percents x.rest) s)
          ∙ whole
          ∙ append_assoc (percent y.first) (percents y.rest) t) in
    let as_long : length (List.◌∷◌ x.first x.rest) ≡ length (List.◌∷◌ y.first y.rest) =
      ap suc (x.number ∙ ap following first ∙ sym y.number) in
    let (all, same) =
      percents_inj (List.◌∷◌ x.first x.rest) (List.◌∷◌ y.first y.rest) s t as_long x.in_range
        y.in_range whole in
    (utf8_inj m n h k (x.bytes ∙ all ∙ sym y.bytes), same)

kept-Begins : (c : Char) (e : String) → e ≡ c ∷ "" → Begins c e
kept-Begins c e h = ("", h ∙ sym (append-nil (c ∷ "")))

Escaped-inj :
    (c x : Char) (s t : String)
    → Escaped c
    → Escaped x
    → escape_char c ++ s ≡ escape_char x ++ t
    → (c ≡ x) × (s ≡ t)
Escaped-inj c x s t (kept p _ _ _) (kept q _ _ _) e =
    single_inj c x s t (sym (ap (λ w. w ++ s) p) ∙ e ∙ ap (λ w. w ++ t) q)
Escaped-inj c x s t (kept p _ plus _) (space q _) e = absurd (
    heads_differ c plus_sign (escape_char c) (escape_char x) s t (kept-Begins c (escape_char c) p)
      ("", q) plus e)
Escaped-inj c x s t (kept p percent _ _) (bytes u _ q) e = absurd (
    heads_differ c percent_sign (escape_char c) (escape_char x) s t
      (kept-Begins c (escape_char c) p) (u, q) percent e)
Escaped-inj c x s t (space p _) (kept q _ plus _) e = absurd (
    heads_differ x plus_sign (escape_char x) (escape_char c) t s (kept-Begins x (escape_char x) q)
      ("", p) plus (sym e))
Escaped-inj c x s t (space p a) (space q b) e = (
  Char-path c x (a ∙ sym b),
  append_cancel_left "+" s t (sym (ap (λ w. w ++ s) p) ∙ e ∙ ap (λ w. w ++ t) q),
)
Escaped-inj c x s t (space p _) (bytes u _ q) e = absurd (
    heads_differ plus_sign percent_sign (escape_char c) (escape_char x) s t ("", p) (u, q)
      (omega arith) e)
Escaped-inj c x s t (bytes u _ p) (kept q percent _ _) e = absurd (
    heads_differ x percent_sign (escape_char x) (escape_char c) t s
      (kept-Begins x (escape_char x) q) (u, p) percent (sym e))
Escaped-inj c x s t (bytes u _ p) (space q _) e = absurd (
    heads_differ plus_sign percent_sign (escape_char x) (escape_char c) t s ("", q) (u, p)
      (omega arith) (sym e))
Escaped-inj c x s t (bytes u p _) (bytes v q _) e =
    let (same, rest) =
      bytes_inj (code c) (code x) s t (code_bound c) (code_bound x)
        (sym (ap (λ w. w ++ s) p) ∙ e ∙ ap (λ w. w ++ t) q) in
    (Char-path c x same, rest)

Escaped-Begins : (c : Char) → Escaped c → (x : Char) × Begins x (escape_char c)
Escaped-Begins c (kept p _ _ _) = (c, kept-Begins c (escape_char c) p)
Escaped-Begins c (space p _) = (plus_sign, ("", p))
Escaped-Begins c (bytes u _ p) = (percent_sign, (u, p))

escape_char-nonempty : (c : Char) (s : String) → "" ≢ escape_char c ++ s
escape_char-nonempty c s e =
    let (x, (u, p)) = Escaped-Begins c (escape_char-Escaped c) in
    nil≢cons (e ∙ ap (λ w. w ++ s) p ∙ append_assoc (x ∷ "") u s ∙ cons-append x "" (u ++ s))

-- Different texts are escaped differently.
pub query_escape-injective : (s t : String) → query_escape s ≡ query_escape t → s ≡ t
unfolding query_escape
query_escape-injective [] [] e = refl
query_escape-injective [] (x ∷ t) e = absurd (escape_char-nonempty x (query_escape t) e)
query_escape-injective (c ∷ s) [] e = absurd (escape_char-nonempty c (query_escape s) (sym e))
query_escape-injective (c ∷ s) (x ∷ t) e =
    let (first, rest) =
      Escaped-inj c x (query_escape s) (query_escape t) (escape_char-Escaped c)
        (escape_char-Escaped x) e in
    let same = query_escape-injective s t rest in cc

hex_digit-NoColon : (n : ℕ) → n < 16 → NoColon (hex_digit n)
unfolding hex_code
hex_digit-NoColon n h =
    let (c, p, q) = hex_digit-cons n h in subst NoColon (sym p) (ground arith, tt)

percent-NoColon : (b : ℕ) → b < 256 → NoColon (percent b)
unfolding percent
percent-NoColon b h =
    NoColon-append "%" (hex_digit (b / 16) ++ hex_digit (b % 16)) (omega arith, tt)
      (NoColon-append (hex_digit (b / 16)) (hex_digit (b % 16))
        (hex_digit-NoColon (b / 16) (omega arith)) (hex_digit-NoColon (b % 16) (omega arith)))

percents-NoColon : (bs : List ℕ) → AreBytes bs → NoColon (percents bs)
unfolding percents
percents-NoColon List.[] h = tt
percents-NoColon (List.◌∷◌ b bs) (h, hs) =
    NoColon-append (percent b) (percents bs) (percent-NoColon b h) (percents-NoColon bs hs)

utf8-NoColon : (n : ℕ) → n < 0x110000 → NoColon (percents (utf8 n))
utf8-NoColon n h =
    let x = utf8-Encoded n h in
    subst (λ w. NoColon (percents w)) (sym x.bytes)
      (percents-NoColon (List.◌∷◌ x.first x.rest) x.in_range)

Escaped-NoColon : (c : Char) → Escaped c → NoColon (escape_char c)
Escaped-NoColon c (kept p _ _ other) = subst NoColon (sym p) (other, tt)
Escaped-NoColon c (space p _) = subst NoColon (sym p) (omega arith, tt)
Escaped-NoColon c (bytes u p _) = subst NoColon (sym p) (utf8-NoColon (code c) (code_bound c))

pub query_escape-NoColon : (s : String) → NoColon (query_escape s)
unfolding query_escape
query_escape-NoColon [] = tt
query_escape-NoColon (c ∷ s) =
    NoColon-append (escape_char c) (query_escape s) (Escaped-NoColon c (escape_char-Escaped c))
      (query_escape-NoColon s)
