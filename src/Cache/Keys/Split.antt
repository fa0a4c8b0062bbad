-- ===== src/Cache/Keys/Split.antt =====
-- A text that a colon divides: the parts are determined by it, if the right one of them, or the left
-- one, holds no colon.
use graph_code_challenge.Cache.Keys.Numbers.{NoColon}
use graph_code_challenge.Prelude.{ap, ◌∙◌, sym, subst, ◌≢◌, ◌≡◌, refl}
use Prim.Native.Char.{Char, char, code}
use Prim.Native.String.{String, [], ◌∷◌, ◌++◌}
use text.Mathlib.TextLemmas.{nil-append, cons-append, cons-eq-cons, append_cancel_left}

unfoldable pub colon : Char
colon = char 58 tt

pub colon-append : (s : String) → ":" ++ s ≡ colon ∷ s
unfolding colon
colon-append s = cons-append _ "" s ∙ ap (λ u. colon ∷ u) (nil-append s)

pub colon-not_NoColon : (a s : String) → ¬ NoColon (a ++ ":" ++ s)
unfolding colon
colon-not_NoColon [] s = rw (nil-append, colon-append) (λ h. h.0 refl)
colon-not_NoColon (c ∷ a) s = rw cons-append (λ h. colon-not_NoColon a s h.1)

-- The longer of two parts holds the colon after the shorter.
colon-eq-cons :
    (s t : String) (c : Char) (b : String) → ":" ++ s ≡ (c ∷ b) ++ ":" ++ t → s ≡ b ++ ":" ++ t
colon-eq-cons s t c b e = (cons-eq-cons.0 (sym (colon-append s) ∙ e ∙ cons-append c b (":" ++ t))).1

pub split_right :
    (a b s t : String) → NoColon s → NoColon t → a ++ ":" ++ s ≡ b ++ ":" ++ t → (a ≡ b) × (s ≡ t)
split_right [] [] s t h k e = (refl, append_cancel_left ":" s t (append_cancel_left "" _ _ e))
split_right [] (c ∷ b) s t h k e = absurd (
    colon-not_NoColon b t
      (subst NoColon (colon-eq-cons s t c b (sym (nil-append (":" ++ s)) ∙ e)) h))
split_right (c ∷ a) [] s t h k e = absurd (
    colon-not_NoColon a s
      (subst NoColon (colon-eq-cons t s c a (sym (nil-append (":" ++ t)) ∙ sym e)) k))
split_right (c ∷ a) (x ∷ b) s t h k e =
    let (heads, tails) =
      cons-eq-cons.0 (sym (cons-append c a (":" ++ s)) ∙ e ∙ cons-append x b (":" ++ t)) in
    let (same, rest) = split_right a b s t h k tails in (cc, rest)

-- A part without colons does not begin with one.
head-not_colon : (c : Char) (b s t : String) → NoColon (c ∷ b) → ":" ++ s ≢ (c ∷ b) ++ ":" ++ t
unfolding colon
head-not_colon c b s t h e =
    let heads = (cons-eq-cons.0 (sym (colon-append s) ∙ e ∙ cons-append c b (":" ++ t))).0 in
    h.0 (ap code (sym heads))

pub split_left :
    (a b s t : String) → NoColon a → NoColon b → a ++ ":" ++ s ≡ b ++ ":" ++ t → (a ≡ b) × (s ≡ t)
split_left [] [] s t h k e = (refl, append_cancel_left ":" s t (append_cancel_left "" _ _ e))
split_left [] (c ∷ b) s t h k e =
    absurd (head-not_colon c b s t k (sym (nil-append (":" ++ s)) ∙ e))
split_left (c ∷ a) [] s t h k e =
    absurd (head-not_colon c a t s h (sym (nil-append (":" ++ t)) ∙ sym e))
split_left (c ∷ a) (x ∷ b) s t h k e =
    let (heads, tails) =
      cons-eq-cons.0 (sym (cons-append c a (":" ++ s)) ∙ e ∙ cons-append x b (":" ++ t)) in
    let (same, rest) = split_left a b s t h.1 k.1 tails in (cc, rest)
