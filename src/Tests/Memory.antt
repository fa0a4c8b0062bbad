-- ===== src/Tests/Memory.antt =====
-- A repository that keeps its table in memory: it implements the interface of the service.
use graph_code_challenge.Repository.Descending.{
  AllBelow-update_spec, AllBelow-delete_spec, IsDescending-update_spec, IsDescending-delete_spec,
  AllBelow-trans, find_above, length-lt, insert_above,
}
use graph_code_challenge.Exec.{Exec}
use graph_code_challenge.Repository.Tasks.{
  update_spec, insert, page, delete_spec, IsDescending, AllBelow, get_spec,
}
use graph_code_challenge.Entity.{Task}
use graph_code_challenge.Repository.{Repository}
use graph_code_challenge.Param.{UpdateTaskRequest}
use graph_code_challenge.Repository.Spec.{failed, written, created, Creates, answered, Implements}
use graph_code_challenge.Errors.{is, plain, err, ok}
use graph_code_challenge.Prelude.{
  ltb_ℤ_iff, ltb_ℤ, ◌<ℤ◌, if◌then◌else◌, ◌<◌, ◌^◌, pos_part, suc, Bool-cases, length, arith, ◌≤ℤ◌,
  ◌∷◌, ℤ, List, refl, inr, inl, pos, [],
}

-- The id after the greatest one.
abbrev next_id : List Task → ℤ
next_id [] = pos 1
next_id (t ∷ ts) = pos (suc (pos_part t.id))

-- A sequence of 64-bit ids, which ends.
abbrev create_in : Task → Exec (List Task) Task
create_in task ts =
    let made = record task { id = next_id ts } in
    if ltb_ℤ (next_id ts) (pos (2 ^ 63))
    then (ok made, insert made ts)
    else (err (plain "nextval: reached maximum value of sequence"), ts)

abbrev pub memory : Repository
memory = record {
  State = List Task;
  create = create_in;
  get_by_id = λ id ts. (get_spec id ts, ts);
  list = λ req ts. (ok (page req ts), ts);
  update = update_spec;
  delete = delete_spec;
  count = λ ts. (ok (pos (length ts)), ts);
}

below-next_id :
    (ts : List Task) → IsDescending ts → (pos 1 ≤ℤ next_id ts) × AllBelow (next_id ts) ts
below-next_id [] d = (omega arith, tt)
below-next_id (t ∷ ts) (p, b, d) =
    (omega arith, (omega arith, AllBelow-trans t.id (pos (suc (pos_part t.id))) ts b (omega arith)))

abbrev pub IsTable : List Task → Type 0
IsTable ts = IsDescending ts × AllBelow (pos (2 ^ 63)) ts

made-IsTable :
    (task : Task) (ts : List Task)
    → IsTable ts
    → next_id ts <ℤ pos (2 ^ 63)
    → IsTable (insert (record task { id = next_id ts }) ts)
made-IsTable task ts (d, h) low =
    let (first, above) = below-next_id ts d in
    let made = record task { id = next_id ts } in
    rw (insert_above made ts above) ((first, above, d), (low, h))

pub create_in-law :
    (task : Task) (ts : List Task)
    → IsTable ts
    → Creates task ts (create_in task ts).0 (create_in task ts).1 × IsTable (create_in task ts).1
unfolding is
create_in-law task ts sound =
    let (low, above) = below-next_id ts sound.0 in
    elim (Bool-cases (ltb_ℤ (next_id ts) (pos (2 ^ 63)))) [
      | inl fits ↦ rw fits (
        created (next_id ts) low (find_above (next_id ts) ts above) refl refl,
        made-IsTable task ts sound ((ltb_ℤ_iff (next_id ts) (pos (2 ^ 63))).0 fits),
      )
      | inr full ↦ rw full (
        failed (plain "nextval: reached maximum value of sequence") refl (refl, refl) refl,
        sound,
      )
    ]

pub update_spec-IsTable :
    (req : UpdateTaskRequest) (ts : List Task) → IsTable ts → IsTable (update_spec req ts).1
update_spec-IsTable req ts (d, h) =
    (IsDescending-update_spec req ts d, AllBelow-update_spec (pos (2 ^ 63)) req ts h)

pub delete_spec-IsTable : (id : ℤ) (ts : List Task) → IsTable ts → IsTable (delete_spec id ts).1
delete_spec-IsTable id ts (d, h) =
    (IsDescending-delete_spec id ts d, AllBelow-delete_spec (pos (2 ^ 63)) id ts h)

pub IsTable-countable : (ts : List Task) → IsTable ts → length ts < 2 ^ 63
IsTable-countable ts (d, h) = length-lt (pos (2 ^ 63)) ts (omega arith) d h

unfoldable pub memory_laws : Implements memory
memory_laws = record {
  live = λ ts. ts;
  IsSound = IsTable;
  descending = λ ts h. h.0;
  countable = IsTable-countable;
  create_law = create_in-law;
  get_by_id_law = λ id ts h. (record { answer = answered refl; kept = refl }, h);
  list_law = λ req ts l h. (record { answer = answered refl; kept = refl }, h);
  update_law = λ req ts h. (written refl refl, update_spec-IsTable req ts h);
  delete_law = λ id ts h. (written refl refl, delete_spec-IsTable id ts h);
  count_law = λ ts h. (record { answer = answered refl; kept = refl }, h);
}
