-- ===== src/Tests/Exchanges.antt =====
-- A request on its way through the middleware, with the letters and digits of ASCII.
use graph_code_challenge.Router.Layers.{routes, is_counted}
use graph_code_challenge.Router.Served.{routes-Served, through, with_chosen_id, Served}
use graph_code_challenge.Cache.Keys.{utf8}
use Prim.Native.Char.{Char, code}
use graph_code_challenge.Prelude.{
  ◌||◌, ◌&&◌, ◌≡◌, arith, leb, All, refl, false, true, [], String, Bool,
}
use graph_code_challenge.Middleware.{
  trim_space, valid_request_id, chosen_id, Received, Next, Exchange, panicked,
}
use graph_code_challenge.Middleware.Ids.{PlainTable, IsSafeId, chosen_id-IsSafeId}

abbrev is_ascii_letter : Char → Bool
is_ascii_letter c = let n = code c in (leb b'A' n && leb n b'Z') || (leb b'a' n && leb n b'z')

abbrev is_ascii_digit : Char → Bool
is_ascii_digit c = let n = code c in leb b'0' n && leb n b'9'

letters-PlainTable : PlainTable is_ascii_letter
letters-PlainTable = record { no_control = λ c low. ground arith }

digits-PlainTable : PlainTable is_ascii_digit
digits-PlainTable = record { no_control = λ c low. ground arith }

abbrev token : String
token = "ABCDEFGHIJKLMNOPQRSTUVWXYZ"

token_valid : valid_request_id is_ascii_letter is_ascii_digit token ≡ true
unfolding valid_request_id utf8
token_valid = refl

abbrev split_header : String
split_header = "demo\r\nSet-Cookie: a=b"

chosen_id-IsSafeId_example :
    IsSafeId (chosen_id is_ascii_letter is_ascii_digit token split_header)
    × (valid_request_id is_ascii_letter is_ascii_digit
          (chosen_id is_ascii_letter is_ascii_digit token split_header)
        ≡ true)
chosen_id-IsSafeId_example =
    chosen_id-IsSafeId is_ascii_letter is_ascii_digit letters-PlainTable digits-PlainTable token
      split_header token_valid

chosen_tests :
    (chosen_id is_ascii_letter is_ascii_digit token " demo-42\t" ≡ "demo-42")
    × (chosen_id is_ascii_letter is_ascii_digit token split_header ≡ token)
    × (chosen_id is_ascii_letter is_ascii_digit token "" ≡ token)
unfolding chosen_id valid_request_id trim_space utf8
chosen_tests = (refl, refl, refl)

abbrev lookup : Received
lookup = record {
  method = "GET";
  url_path = "/api/v1/tasks/7";
  full_path = "/api/v1/tasks/:id";
  request_id_header = "demo-42";
  client_ip = "127.0.0.1";
  elapsed = "1ms";
  stack = "goroutine 1";
}

abbrev fresh : Exchange
fresh = record {
  context_id = "";
  header_id = "";
  status = 200;
  is_written = false;
  logs = [];
  observed = [];
}

abbrev fails : Next
fails x = (panicked "nil map", x)

routes-Served_example :
    All
      (λ r.
        Served
          (is_counted r.endpoint)
          false
          lookup
          (fails (with_chosen_id is_ascii_letter is_ascii_digit token lookup fresh))
          (through is_ascii_letter is_ascii_digit token r.layers lookup fails fresh))
      routes
routes-Served_example = routes-Served is_ascii_letter is_ascii_digit token lookup fails fresh
