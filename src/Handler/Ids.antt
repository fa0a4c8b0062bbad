-- ===== src/Handler/Ids.antt =====
-- `parseID`: which path parameters are ids.
use graph_code_challenge.Strconv.{parse_int}
use graph_code_challenge.Strconv.RoundTrip.{parse_int-format_int}
use graph_code_challenge.Handler.{parse_id}
use graph_code_challenge.Prelude.{
  if◌then◌else◌, leb_ℤ, none, arith, ◌↔◌, ◌≡◌, format_int, ◌≤ℤ◌, ltb_ℤ, IsInt64, ℤ, pos, some,
  String,
}
use graph_code_challenge.Strconv

-- A path parameter is an id exactly when it is read as an integer of 64 bits that is positive.
pub parse_id_iff :
    (raw : String) (id : ℤ)
    → (parse_id raw ≡ some id) ↔ ((parse_int raw ≡ Strconv.number id) × (pos 1 ≤ℤ id))
unfolding parse_id ltb_ℤ
parse_id_iff raw id = ground arith

-- An int64 that is printed into the path is read back as it was if it is positive, and refused if it is
-- not.
pub parse_id-format_int :
    (id : ℤ) → IsInt64 id → parse_id (format_int id) ≡ (if leb_ℤ (pos 1) id then some id else none)
unfolding parse_id ltb_ℤ leb_ℤ
parse_id-format_int id h = rw (parse_int-format_int id h, parse_id) (ground arith)
