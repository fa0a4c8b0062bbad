-- ===== src/Json.antt =====
-- encoding/json as far as the program uses it, over parsed JSON: the bytes of a payload stand for
-- the value that they spell. A field is found by its exact name.
pub mod RoundTrip
use graph_code_challenge.Prelude.{ℤ, pos, String, Bool, List, [], ◌∷◌, ◌==◌, if◌then◌else◌}
use graph_code_challenge.Errors.{Error, plain, Result, ok, err}
use graph_code_challenge.Entity.{Task}

-- `number` is an integer that an int64 holds, `real` any other number, as it is written.
mutual
  pub data Json : Type 0 where
    null : Json
    bool : Bool → Json
    number : ℤ → Json
    real : String → Json
    string : String → Json
    array : Items → Json
    object : Members → Json

  pub data Items : Type 0 where
    nil : Items
    cons : Json → Items → Items

  pub data Members : Type 0 where
    end : Members
    member : String → Json → Members → Members

abbrev type_error : Error
type_error = plain "json: cannot unmarshal value into Go value"

-- `json.Marshal` of an `entity.Task`, whose fields have no tags.
unfoldable pub encode_task : Task → Json
encode_task t = object (
    member "ID" (number t.id) (
      member "Title" (string t.title) (
        member "Description" (string t.description)
          (member "Status" (string t.status) (member "Assignee" (string t.assignee) end)))))

encode_items : List Task → Items
encode_items [] = nil
encode_items (t ∷ ts) = cons (encode_task t) (encode_items ts)

-- `json.Marshal` of a `[]entity.Task` that is not nil.
unfoldable pub encode_tasks : List Task → Json
unfolding encode_items
encode_tasks ts = array (encode_items ts)

-- The zero value, into which a task is decoded.
abbrev zero_task : Task
zero_task = record { id = pos 0; title = ""; description = ""; status = ""; assignee = "" }

-- `null` leaves the field as it is.
decode_int : Json → ℤ → Result ℤ
decode_int (number n) old = ok n
decode_int null old = ok old
decode_int _ old = err type_error

decode_string : Json → String → Result String
decode_string (string s) old = ok s
decode_string null old = ok old
decode_string _ old = err type_error

abbrev map_result : {A : Type 0} → (A → Task) → Result A → Result Task
map_result f (ok a) = ok (f a)
map_result f (err e) = err e

-- A member with another name is ignored.
set_field : String → Json → Task → Result Task
unfolding decode_int decode_string
set_field name v t =
    if name == "ID"
    then map_result (λ n. record t { id = n }) (decode_int v t.id)
    else if name == "Title"
    then map_result (λ s. record t { title = s }) (decode_string v t.title)
    else if name == "Description"
    then map_result (λ s. record t { description = s }) (decode_string v t.description)
    else if name == "Status"
    then map_result (λ s. record t { status = s }) (decode_string v t.status)
    else if name == "Assignee"
    then map_result (λ s. record t { assignee = s }) (decode_string v t.assignee)
    else ok t

abbrev then_set : Result Task → (Task → Result Task) → Result Task
then_set (ok t) f = f t
then_set (err e) f = err e

set_members : Members → Task → Result Task
set_members end t = ok t
set_members (member name v ms) t = then_set (set_field name v t) (set_members ms)

-- `json.Unmarshal` into an `entity.Task`.
unfoldable pub decode_task : Json → Result Task
unfolding set_members set_field
decode_task (object ms) = set_members ms zero_task
decode_task null = ok zero_task
decode_task _ = err type_error

abbrev cons_result : Result Task → Result (List Task) → Result (List Task)
cons_result (ok t) (ok ts) = ok (t ∷ ts)
cons_result (err e) _ = err e
cons_result (ok t) (err e) = err e

decode_items : Items → Result (List Task)
decode_items nil = ok []
decode_items (cons v vs) = cons_result (decode_task v) (decode_items vs)

-- `json.Unmarshal` into a `[]entity.Task`.
unfoldable pub decode_tasks : Json → Result (List Task)
unfolding decode_items
decode_tasks (array vs) = decode_items vs
decode_tasks null = ok []
decode_tasks _ = err type_error
