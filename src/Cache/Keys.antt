-- ===== src/Cache/Keys.antt =====
-- The keys of internal/repository/redis/redistask/task.go, and `url.QueryEscape` of net/url.
pub mod Numbers
pub mod Bytes
pub mod Escape
pub mod Distinct
pub mod Split
use Prim.Native.Char.{Char, code}
use Prim.Native.String.{[], ◌∷◌, ◌++◌}
use graph_code_challenge.Prelude.{
  digit, ℕ, ◌+◌, ◌/◌, ◌%◌, String, Bool, ◌&&◌, ◌||◌, ltb, leb, eqb, ◌≡◌, refl, ℤ, pos,
  if◌then◌else◌, format_int, sprintf, decimal,
}
use mathlib.Core.List.{List}
use graph_code_challenge.Param.{ListTasksRequest}

abbrev pub task_key_prefix : String
task_key_prefix = "task:"

abbrev pub list_key_prefix : String
list_key_prefix = "tasks:list:"

abbrev pub list_gen_key : String
list_gen_key = "tasks:list:gen"

abbrev pub count_key : String
count_key = "tasks:count"

abbrev pub count_lock_key : String
count_lock_key = "tasks:count:lock"

unfoldable pub task_key : ℤ → String
task_key id = task_key_prefix ++ format_int id

unfoldable pub hex_digit : ℕ → String
hex_digit n =
    if eqb n 10
    then "A"
    else if eqb n 11
    then "B"
    else if eqb n 12
    then "C"
    else if eqb n 13
    then "D"
    else if eqb n 14
    then "E"
    else if eqb n 15
    then "F"
    else digit n

unfoldable pub percent : ℕ → String
unfolding hex_digit
percent b = "%" ++ hex_digit (b / 16) ++ hex_digit (b % 16)

-- The bytes of a character in UTF-8.
unfoldable pub utf8 : ℕ → List ℕ
utf8 n =
    if ltb n 0x80
    then List.◌∷◌ n List.[]
    else if ltb n 0x800
    then List.◌∷◌ (0xc0 + n / 64) (List.◌∷◌ (0x80 + n % 64) List.[])
    else if ltb n 0x10000
    then List.◌∷◌ (0xe0 + n / 4096)
        (List.◌∷◌ (0x80 + n / 64 % 64) (List.◌∷◌ (0x80 + n % 64) List.[]))
    else List.◌∷◌ (0xf0 + n / 262144) (
        List.◌∷◌ (0x80 + n / 4096 % 64)
          (List.◌∷◌ (0x80 + n / 64 % 64) (List.◌∷◌ (0x80 + n % 64) List.[])))

-- Each byte as `%XX`.
unfoldable pub percents : List ℕ → String
unfolding percent
percents List.[] = ""
percents (List.◌∷◌ b bs) = percent b ++ percents bs

-- Letters, digits and `-_.~`.
unfoldable pub is_unreserved : ℕ → Bool
is_unreserved n =
    (leb b'a' n && leb n b'z')
    || (leb b'A' n && leb n b'Z')
    || (leb b'0' n && leb n b'9')
    || eqb n b'-'
    || eqb n b'_'
    || eqb n b'.'
    || eqb n b'~'

unfoldable pub escape_char : Char → String
unfolding is_unreserved utf8 percents
escape_char c =
    if is_unreserved (code c)
    then c ∷ []
    else if eqb (code c) b' '
    then "+"
    else percents (utf8 (code c))

unfoldable pub query_escape : String → String
unfolding escape_char
query_escape [] = ""
query_escape (c ∷ s) = escape_char c ++ query_escape s

-- The key of a page, for a generation.
unfoldable pub page_key : String → ListTasksRequest → String
unfolding sprintf
page_key generation req = sprintf "%s%s:%s:%s:%d:%d" (
    List.◌∷◌ list_key_prefix (
      List.◌∷◌ generation (
        List.◌∷◌ req.status (
          List.◌∷◌ (query_escape req.assignee)
            (List.◌∷◌ (format_int req.cursor) (List.◌∷◌ (format_int req.limit) List.[]))))))

key_tests :
    (task_key (pos 42) ≡ "task:42")
    × (page_key "G"
          (record { status = "done"; assignee = "al ex/é"; cursor = pos 0; limit = pos 21 })
        ≡ "tasks:list:G:done:al+ex%2F%C3%A9:0:21")
unfolding task_key format_int page_key query_escape decimal digit
key_tests = (refl, refl)
