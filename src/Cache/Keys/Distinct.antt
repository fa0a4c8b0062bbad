-- ===== src/Cache/Keys/Distinct.antt =====
-- Which keys differ: those of two tasks, of two pages or generations, and of the kinds of things kept.
use graph_code_challenge.Cache.Keys.Bytes.{single_inj}
use graph_code_challenge.Cache.Keys.Escape.{query_escape-injective, query_escape-NoColon}
use graph_code_challenge.Cache.Keys.Split.{
  colon-not_NoColon, colon-append, colon, split_left, split_right,
}
use graph_code_challenge.Cache.Keys.Numbers.{format_int-NoColon, format_int-injective, NoColon}
use graph_code_challenge.Cache.Keys.{
  count_lock_key, count_key, list_gen_key, task_key_prefix, list_key_prefix, query_escape, task_key,
  page_key,
}
use graph_code_challenge.Param.{ListTasksRequest}
use Prim.Native.Char.{Char, char, code}
use Prim.Native.String.{String, ◌∷◌, ◌++◌}
use text.Mathlib.TextLemmas.{
  append-eq-nil_iff, cons-append, append_cancel_left, append-nil, append_assoc,
}
use graph_code_challenge.Prelude.{
  Bool-cases, ◌==◌, inr, inl, false, subst, eq_iff, arith, ap, ◌≢◌, ◌∙◌, sym, format_int, ℤ, ◌≡◌,
}

-- Keys of different tasks differ.
pub task_key-injective : (a b : ℤ) → task_key a ≡ task_key b → a ≡ b
unfolding task_key
task_key-injective a b e = format_int-injective a b (append_cancel_left task_key_prefix _ _ e)

-- What stands after the prefix and the generation in the key of a page.
page_suffix : ListTasksRequest → String
page_suffix req =
    ((req.status ++ ":" ++ query_escape req.assignee) ++ ":" ++ format_int req.cursor)
    ++ ":"
    ++ format_int req.limit

page_key-append :
    (g : String) (req : ListTasksRequest)
    → page_key g req ≡ list_key_prefix ++ (g ++ ":" ++ page_suffix req)
unfolding page_key page_suffix colon
page_key-append g req = simp (append_assoc, append-nil, colon-append, cons-append)

page_suffix-injective : (a b : ListTasksRequest) → page_suffix a ≡ page_suffix b → a ≡ b
unfolding page_suffix
page_suffix-injective a b e =
    let (front, limits) =
      split_right _ _ (format_int a.limit) (format_int b.limit) (format_int-NoColon a.limit)
        (format_int-NoColon b.limit) e in
    let (fronts, cursors) =
      split_right _ _ (format_int a.cursor) (format_int b.cursor) (format_int-NoColon a.cursor)
        (format_int-NoColon b.cursor) front in
    let (statuses, assignees) =
      split_right a.status b.status (query_escape a.assignee) (query_escape b.assignee)
        (query_escape-NoColon a.assignee) (query_escape-NoColon b.assignee) fronts in
    let same_assignee = query_escape-injective a.assignee b.assignee assignees in
    let same_cursor = format_int-injective a.cursor b.cursor cursors in
    let same_limit = format_int-injective a.limit b.limit limits in
    (λ i. record {
      status = statuses i;
      assignee = same_assignee i;
      cursor = same_cursor i;
      limit = same_limit i;
    })

-- Keys of pages differ if their generations or their requests do; generations hold no colon.
pub page_key-injective :
    (g h : String) (a b : ListTasksRequest)
    → NoColon g
    → NoColon h
    → page_key g a ≡ page_key h b
    → (g ≡ h) × (a ≡ b)
page_key-injective g h a b clean_g clean_h e =
    let (generations, suffixes) = split_left g h (page_suffix a) (page_suffix b) clean_g clean_h (
      append_cancel_left list_key_prefix _ _
        (sym (page_key-append g a) ∙ e ∙ page_key-append h b)) in
    (generations, page_suffix-injective a b suffixes)

prefixes_differ :
    (p : String) (c x : Char) (s t : String)
    → code c ≢ code x
    → (p ++ (c ∷ "")) ++ s ≢ (p ++ (x ∷ "")) ++ t
prefixes_differ p c x s t other e = other (
    ap code
      (single_inj c x s t (
        append_cancel_left p _ _
          (sym (append_assoc p (c ∷ "") s) ∙ e ∙ append_assoc p (x ∷ "") t))).0)

-- The key of a task is none of the others: they begin with "tasks".
task_key-ne-tasks : (id : ℤ) (t : String) → task_key id ≢ "tasks" ++ t
unfolding task_key
task_key-ne-tasks id t =
    prefixes_differ "task" (char 58 tt) (char 115 tt) (format_int id) t (omega arith)

pub task_key-ne-page_key :
    (id : ℤ) (g : String) (req : ListTasksRequest) → task_key id ≢ page_key g req
task_key-ne-page_key id g req e =
    task_key-ne-tasks id _ (e ∙ page_key-append g req ∙ append_assoc "tasks" ":list:" _)

pub task_key-ne-list_gen_key : (id : ℤ) → task_key id ≢ list_gen_key
task_key-ne-list_gen_key id e = task_key-ne-tasks id ":list:gen" e

pub task_key-ne-count_key : (id : ℤ) → task_key id ≢ count_key
task_key-ne-count_key id e = task_key-ne-tasks id ":count" e

pub task_key-ne-count_lock_key : (id : ℤ) → task_key id ≢ count_lock_key
task_key-ne-count_lock_key id e = task_key-ne-tasks id ":count:lock" e

-- The key of a page holds a colon after the generation, unlike the key of the generation.
pub page_key-ne-list_gen_key : (g : String) (req : ListTasksRequest) → page_key g req ≢ list_gen_key
page_key-ne-list_gen_key g req e = colon-not_NoColon g (page_suffix req) (
    subst NoColon
      (sym (append_cancel_left list_key_prefix _ "gen" (sym (page_key-append g req) ∙ e)))
      (omega arith, (omega arith, (omega arith, tt))))

page_key-ne-count :
    (g : String) (req : ListTasksRequest) (t : String) → page_key g req ≢ "tasks:c" ++ t
page_key-ne-count g req t e =
    prefixes_differ "tasks:" (char 108 tt) (char 99 tt) _ t (omega arith)
      (sym (append_assoc "tasks:l" "ist:" _) ∙ sym (page_key-append g req) ∙ e)

pub page_key-ne-count_key : (g : String) (req : ListTasksRequest) → page_key g req ≢ count_key
page_key-ne-count_key g req e = page_key-ne-count g req "ount" e

pub page_key-ne-count_lock_key :
    (g : String) (req : ListTasksRequest) → page_key g req ≢ count_lock_key
page_key-ne-count_lock_key g req e = page_key-ne-count g req "ount:lock" e

pub fixed_keys_differ :
    (list_gen_key ≢ count_key) × (list_gen_key ≢ count_lock_key) × (count_key ≢ count_lock_key)
fixed_keys_differ = (
  ground (arith, eq_iff list_gen_key count_key),
  ground (arith, eq_iff list_gen_key count_lock_key),
  ground (arith, eq_iff count_key count_lock_key),
)

-- The empty key, which stands for none, is no page's.
pub page_key-nonempty : (g : String) (req : ListTasksRequest) → (page_key g req == "") ≡ false
page_key-nonempty g req = elim (Bool-cases (page_key g req == "")) [
  | inl empty ↦ absurd (
      let nothing_there =
        (append-eq-nil_iff.0
          (sym (page_key-append g req) ∙ (eq_iff (page_key g req) "").0 empty)).0 in
      ground (arith, eq_iff list_key_prefix "", nothing_there))
  | inr full ↦ full
]
