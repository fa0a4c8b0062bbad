-- ===== src/Middleware.antt =====
-- internal/delivery/httpserver/middleware, with internal/requestid and the `log` of
-- internal/logger/sloglogger: what each middleware does around the handlers that follow it. A handler
-- ends or panics, and `Exchange` holds what it has done by then. As gin documents, a status that is set
-- once the header has been written changes nothing.
pub mod Ids
use graph_code_challenge.Cache.Keys.{utf8}
use graph_code_challenge.Prelude.{
  ltb, not, ◌==◌, eqb, if◌then◌else◌, decimal, ◌||◌, ◌&&◌, leb, ℕ, String, Bool, ◌++◌, ◌+◌, length,
  true, false,
}
use Prim.Native.Char.{Char, code}
use Prim.Native.String.{[], ◌∷◌}
use mathlib.Core.List.{List}

pub data Level : Type 0 where
  info_level error_level : Level

abbrev pub Attribute : Type 0
Attribute = String × String

pub record Entry : Type 0 where
  pub level : Level
  pub message : String
  pub attributes : List Attribute

-- What `ObserveRequest` is given, but for the duration.
pub record Observation : Type 0 where
  pub method : String
  pub path : String
  pub status : String

-- A request, as the middleware reads it; `elapsed` and `stack` are what `time.Since` and `debug.Stack`
-- render to.
pub record Received : Type 0 where
  pub method : String
  pub url_path : String
  pub full_path : String
  pub request_id_header : String
  pub client_ip : String
  pub elapsed : String
  pub stack : String

-- `header_id` is the response's X-Request-ID, `context_id` what `requestid.FromContext` gives;
-- `is_written` says whether the header of the response has been written (`c.Writer.Written`).
pub record Exchange : Type 0 where
  pub context_id : String
  pub header_id : String
  pub status : ℕ
  pub is_written : Bool
  pub logs : List Entry
  pub observed : List Observation

pub data Outcome : Type 0 where
  completed : Outcome
  panicked : String → Outcome

abbrev pub Next : Type 0
Next = Exchange → Outcome × Exchange

abbrev pub unmatched_path : String
unmatched_path = "unmatched"

abbrev pub max_request_id_length : ℕ
max_request_id_length = 128

-- `sloglogger.Logger.log`: the id of the request comes first, if there is one.
unfoldable pub with_id : String → List Attribute → List Attribute
with_id id attributes =
    if not (id == "") then List.◌∷◌ ("request_id", id) attributes else attributes

unfoldable pub log : Level → String → List Attribute → Exchange → Exchange
unfolding with_id
log level message attributes x =
    let entry : Entry = record {
      level = level;
      message = message;
      attributes = with_id x.context_id attributes;
    } in
    record x { logs = x.logs ++ (List.◌∷◌ entry List.[]) }

-- `unicode.IsSpace`
unfoldable pub is_space : Char → Bool
is_space c =
    let n = code c in
    (leb 9 n && leb n 13)
    || eqb n 0x20
    || eqb n 0x85
    || eqb n 0xa0
    || eqb n 0x1680
    || (leb 0x2000 n && leb n 0x200a)
    || eqb n 0x2028
    || eqb n 0x2029
    || eqb n 0x202f
    || eqb n 0x205f
    || eqb n 0x3000

trim_left : String → String
trim_left [] = []
trim_left (c ∷ s) = let shorter = trim_left s in if is_space c then shorter else c ∷ s

trim_right : String → String
trim_right [] = []
trim_right (c ∷ s) = let kept = trim_right s in if kept == "" && is_space c then "" else c ∷ kept

-- `strings.TrimSpace`
unfoldable pub trim_space : String → String
unfolding is_space trim_left trim_right
trim_space s = trim_right (trim_left s)

-- `len` of a Go string, in bytes.
abbrev pub byte_length : String → ℕ
byte_length [] = 0
byte_length (c ∷ s) = length (utf8 (code c)) + byte_length s

-- `unicode.IsLetter` and `unicode.IsDigit` go by the tables of Unicode.
module _ (is_letter is_digit : Char → Bool) where
  abbrev pub is_id_character : Char → Bool
  is_id_character c =
      is_letter c || is_digit c || eqb (code c) b'-' || eqb (code c) b'_' || eqb (code c) b'.'

  abbrev pub all_id_characters : String → Bool
  all_id_characters [] = true
  all_id_characters (c ∷ s) = is_id_character c && all_id_characters s

  unfoldable pub valid_request_id : String → Bool
  unfolding utf8
  valid_request_id id =
      if id == "" || ltb max_request_id_length (byte_length id) then false else all_id_characters id

  -- The id that `RequestID` chooses, where `random` is what `rand.Text()` draws.
  unfoldable pub chosen_id : String → String → String
  chosen_id random header =
      let id = trim_space header in if not (valid_request_id id) then random else id

  -- `RequestID`
  unfoldable pub request_id : String → Received → Next → Next
  request_id random request next x =
      let id = chosen_id random request.request_id_header in
      next (record x { header_id = id; context_id = id })

-- The path that logs and metrics show.
abbrev pub shown_path : Received → String
shown_path request = if request.full_path == "" then unmatched_path else request.full_path

-- What `RequestLogger` does after `c.Next()`. A panic passes through: nothing after it runs.
unfoldable pub logged : Received → Outcome × Exchange → Outcome × Exchange
unfolding log
logged request (panicked p, x) = (panicked p, x)
logged request (completed, x) = if request.url_path == "/metrics" then (completed, x) else (
  completed,
  log info_level "http request"
      (List.◌∷◌ ("method", request.method)
        (List.◌∷◌ ("path", shown_path request)
          (List.◌∷◌ ("status", decimal x.status)
            (List.◌∷◌ ("duration", request.elapsed)
              (List.◌∷◌ ("client_ip", request.client_ip) List.[])))))
      x,
)

-- `RequestLogger`
unfoldable pub request_logger : Received → Next → Next
unfolding logged
request_logger request next x = logged request (next x)

-- `c.AbortWithStatusJSON`, but for the body.
abbrev pub write_status : ℕ → Exchange → Exchange
write_status status x = record x {
  status = if x.is_written then x.status else status;
  is_written = true;
}

-- The deferred function of `Recovery`.
unfoldable pub recovered : Received → Outcome × Exchange → Outcome × Exchange
unfolding log
recovered request (completed, x) = (completed, x)
recovered request (panicked p, x) =
    let attributes = List.◌∷◌ ("panic", p) (List.◌∷◌ ("stack", request.stack) List.[]) in
    (completed, write_status 500 (log error_level "panic recovered" attributes x))

-- `Recovery`
unfoldable pub recovery : Received → Next → Next
unfolding recovered
recovery request next x = recovered request (next x)

-- What `Metrics` does after `c.Next()`.
unfoldable pub counted : Received → Outcome × Exchange → Outcome × Exchange
counted request (panicked p, x) = (panicked p, x)
counted request (completed, x) =
    let observation : Observation = record {
      method = request.method;
      path = shown_path request;
      status = decimal x.status;
    } in
    (completed, record x { observed = x.observed ++ (List.◌∷◌ observation List.[]) })

-- `Metrics`
unfoldable pub metrics : Received → Next → Next
unfolding counted
metrics request next x = counted request (next x)
