-- ===== src/Middleware/Ids.antt =====
-- The id that a request is given.
use Prim.Native.Char.{Char, code}
use Prim.Native.String.{[], ◌∷◌}
use graph_code_challenge.Prelude.{
  eq_iff, ltb, ◌==◌, Bool-cases, arith, ◌≢◌, ◌≤◌, ◌≡◌, ◌<◌, inr, inl, String, Bool, true, false,
}
use graph_code_challenge.Middleware.{
  trim_space, valid_request_id, chosen_id, all_id_characters, byte_length, is_id_character,
}

-- What the tables of Unicode say of the characters up to the space.
pub record PlainTable (in_table : Char → Bool) : Type 0 where
  pub no_control : (c : Char) → code c ≤ 0x20 → in_table c ≡ false

-- Neither empty nor longer than 128 bytes, without a space, a line break or another control character.
abbrev IsPrintable : String → Type 0
IsPrintable [] = Unit
IsPrintable (c ∷ s) = (0x20 < code c) × IsPrintable s

pub record IsSafeId (id : String) : Type 0 where
  pub not_empty : id ≢ ""
  pub bounded : byte_length id ≤ 128
  pub printable : IsPrintable id

module _ (is_letter is_digit : Char → Bool) (letters : PlainTable is_letter)
    (digits : PlainTable is_digit) where
  id_character-gt : (c : Char) → is_id_character is_letter is_digit c ≡ true → 0x20 < code c
  id_character-gt c passes = ground (arith, letters.no_control c, digits.no_control c)

  all_id_characters-IsPrintable :
      (s : String) → all_id_characters is_letter is_digit s ≡ true → IsPrintable s
  all_id_characters-IsPrintable [] h = tt
  all_id_characters-IsPrintable (c ∷ s) h =
      elim (Bool-cases (is_id_character is_letter is_digit c)) [
        | inl allowed ↦
            let rest = h in
            (id_character-gt c allowed, all_id_characters-IsPrintable s (rw allowed at rest))
        | inr other ↦ let rest = h in let impossible = rw other at rest in absurd cc
      ]

  valid_request_id-IsSafeId :
      (id : String) → valid_request_id is_letter is_digit id ≡ true → IsSafeId id
  unfolding valid_request_id
  valid_request_id-IsSafeId id h = elim (Bool-cases (id == "")) [
    | inl empty ↦ ground arith
    | inr some_text ↦ elim (Bool-cases (ltb 128 (byte_length id))) [
      | inl long ↦ ground arith
      | inr short ↦ record {
        not_empty = λ e. ground (arith, eq_iff id "");
        bounded = ground arith;
        printable = all_id_characters-IsPrintable id (ground arith);
      }
    ]
  ]

  -- The id that a request is given, and that the response carries, is neither empty nor longer than 128
  -- bytes and has no character up to the space, so no line break, whatever the client sent; where the
  -- token that is drawn instead is a valid id.
  pub chosen_id-IsSafeId :
      (random header : String)
      → valid_request_id is_letter is_digit random ≡ true
      → IsSafeId (chosen_id is_letter is_digit random header)
        × (valid_request_id is_letter is_digit (chosen_id is_letter is_digit random header) ≡ true)
  unfolding chosen_id
  chosen_id-IsSafeId random header drawn =
      let id = trim_space header in
      elim (Bool-cases (valid_request_id is_letter is_digit (trim_space header))) [
        | inl kept ↦ rw kept (valid_request_id-IsSafeId id kept, kept)
        | inr dropped ↦ rw dropped (valid_request_id-IsSafeId random drawn, drawn)
      ]
