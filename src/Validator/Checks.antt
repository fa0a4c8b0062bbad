-- ===== src/Validator/Checks.antt =====
-- What each check of a field accepts: the empty message means that the field is valid.
use text.Mathlib.TextLemmas.{length-eq-zero_iff}
use graph_code_challenge.Prelude.{
  ltb_ℤ, String, count, ℤ, pos, ◌≤◌, ◌≡◌, ◌≢◌, ◌↔◌, ◌⊎◌, inl, inr, ◌≤ℤ◌, true, false, arith, eq_iff,
}
use graph_code_challenge.Entity.{IsKnownStatus, is_valid_iff}
use graph_code_challenge.Validator.{
  check_id, check_title, check_description, check_assignee, check_status, check_cursor,
}

pub check_id_iff : (id : ℤ) → (check_id id ≡ "") ↔ (pos 1 ≤ℤ id)
unfolding check_id ltb_ℤ
check_id_iff id = ground (arith, eq_iff "id must be a positive number" "")

pub check_title_iff : (s : String) → (check_title s ≡ "") ↔ ((1 ≤ count s) × (count s ≤ 200))
unfolding check_title
check_title_iff s = ground (
  arith,
  eq_iff s "",
  length-eq-zero_iff {l = s},
  eq_iff "title is required" "",
  eq_iff "title must not exceed 200 characters" "",
)

pub check_description_iff : (s : String) → (check_description s ≡ "") ↔ (count s ≤ 2000)
unfolding check_description
check_description_iff s = ground (arith, eq_iff "description must not exceed 2000 characters" "")

pub check_assignee_iff : (s : String) → (check_assignee s ≡ "") ↔ (count s ≤ 100)
unfolding check_assignee
check_assignee_iff s = ground (arith, eq_iff "assignee must not exceed 100 characters" "")

pub check_cursor_iff : (cursor : ℤ) → (check_cursor cursor ≡ "") ↔ (pos 0 ≤ℤ cursor)
unfolding check_cursor ltb_ℤ
check_cursor_iff cursor = ground (arith, eq_iff "cursor must not be negative" "")

-- An omitted status passes where none is required.
pub check_status_optional_iff :
    (s : String) → (check_status s false ≡ "") ↔ ((s ≡ "") ⊎ IsKnownStatus s)
unfolding check_status
check_status_optional_iff s = ground (
  arith,
  eq_iff s "",
  is_valid_iff s,
  eq_iff "status must be one of: pending, in_progress, done" "",
)

known-ne-empty : (s : String) → IsKnownStatus s → s ≢ ""
known-ne-empty s (inl e) p = cc
known-ne-empty s (inr (inl e)) p = cc
known-ne-empty s (inr (inr e)) p = cc

pub check_status_required_iff : (s : String) → (check_status s true ≡ "") ↔ IsKnownStatus s
unfolding check_status
check_status_required_iff s = ground (
  arith,
  eq_iff s "",
  is_valid_iff s,
  known-ne-empty s,
  eq_iff "status is required" "",
  eq_iff "status must be one of: pending, in_progress, done" "",
)
