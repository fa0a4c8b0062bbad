-- ===== src/Api.antt =====
-- cmd/api/main.go: what `run` does from the start of its servers to its return, as steps that `run` and
-- the goroutines of the servers take in any order; with `Serve` and `Shutdown` of
-- internal/delivery/httpserver/server.go and internal/profiler/server.go. What net/http answers to
-- `ListenAndServe` and `Shutdown` is part of each step: as it documents, `ListenAndServe` returns once
-- `Shutdown` has been called, with `http.ErrServerClosed`; until then it may fail at any time, or never
-- return.
pub mod Counts
pub mod Closed
pub mod Ends
pub mod Events
pub mod Report
use graph_code_challenge.Prelude.{
  ◌⊎◌, not, Bool, true, ◌-◌, ◌<◌, ◌∷◌, ◌++◌, ◌≡◌, if◌then◌else◌, length, sprintf, suc, some, none,
  [], List, Option, String, ℕ,
}
use graph_code_challenge.Config.{Config}
use graph_code_challenge.Errors.{sentinel, is, plain, wrapped, Error, join_error, server_closed}

-- The servers that `run` manages.
pub data Server : Type 0 where
  api_server pprof_server : Server

abbrev pub server_name : Server → String
server_name api_server = "api"
server_name pprof_server = "pprof"

unfoldable pub managed_servers : Config → List Server
managed_servers cfg = api_server ∷ (if cfg.pprof_enabled then pprof_server ∷ [] else [])

-- `if err := …; err != nil && !errors.Is(err, http.ErrServerClosed)`
abbrev pub serve_error : String → Option Error → Option Error
serve_error p none = none
serve_error p (some e) = if is e server_closed then none else some (wrapped p e)

-- `Serve` of each server, by what `ListenAndServe` returns.
unfoldable pub serve : Server → Option Error → Option Error
serve api_server listened = serve_error "httpserver: serve: " listened
serve pprof_server listened = serve_error "profiler: serve: " listened

abbrev pub wrap_some : String → Option Error → Option Error
wrap_some p none = none
wrap_some p (some e) = some (wrapped p e)

-- `Shutdown` of the API's server, which has nothing to do before `Setup`.
abbrev shutdown_api : Bool → Option Error → Option Error
shutdown_api is_set_up closed =
    if not is_set_up then none else wrap_some "httpserver: shutdown: " closed

-- `Shutdown` of each server, by what that of net/http returns; `run` calls `Setup` first.
unfoldable pub shutdown : Server → Option Error → Option Error
shutdown api_server closed = shutdown_api true closed
shutdown pprof_server closed = wrap_some "profiler: shutdown: " closed

pub record ServerResult : Type 0 where
  pub name : String
  pub error : Option Error

-- The error that `run` returns when a server stops before a signal.
unfoldable pub stopped_error : ServerResult → Error
unfolding sprintf
stopped_error x = elim x.error [
  | some e ↦ wrapped (sprintf "%s: " (x.name ∷ [])) e
  | none ↦ plain (sprintf "%s server stopped unexpectedly" (x.name ∷ []))
]

-- `if err != nil { runErr = errors.Join(runErr, err) }`
abbrev pub join_some : Option Error → Option Error → Option Error
join_some run none = run
join_some run (some e) = some (join_error run e)

-- What a result that is drained adds to the error.
unfoldable pub drained_error : ServerResult → Option Error
unfolding sprintf
drained_error x = wrap_some (sprintf "%s: " (x.name ∷ [])) x.error

-- Where `run` stands: at its `select`, with servers left to shut down, with results left to receive,
-- or returned.
pub data Stage : Type 0 where
  selecting : Stage
  stopping : List Server → Stage
  draining : ℕ → Stage
  returned : Stage

-- `serving` are the goroutines whose `Serve` has not returned, `closed` the servers on which `Shutdown`
-- was called, `channel` is the buffer of `serveResult`.
pub record Run : Type 0 where
  pub serving : List Server
  pub closed : List Server
  pub channel : List ServerResult
  pub stage : Stage
  pub run_err : Option Error
  pub completed : ℕ

unfoldable pub start : List Server → Run
start servers = record {
  serving = servers;
  closed = [];
  channel = [];
  stage = selecting;
  run_err = none;
  completed = 0;
}

-- `case result := <-serveResult`
unfoldable pub select_result : List Server → ServerResult → List ServerResult → Run → Run
select_result servers x rest r = record r {
  channel = rest;
  stage = stopping servers;
  run_err = some (stopped_error x);
  completed = 1;
}

-- `case <-ctx.Done()`
unfoldable pub select_signal : List Server → Run → Run
select_signal servers r = record r { stage = stopping servers }

-- One round of the loop that shuts down the servers.
unfoldable pub stop_next : Server → List Server → Option Error → Run → Run
stop_next s rest closed r = record r {
  closed = r.closed ++ (s ∷ []);
  stage = stopping rest;
  run_err = join_some r.run_err (shutdown s closed);
}

-- `range len(servers) - completedServers`
unfoldable pub start_drain : List Server → Run → Run
start_drain servers r = record r { stage = draining (length servers - r.completed) }

-- One round of the loop that receives the remaining results.
unfoldable pub drain_next : ℕ → ServerResult → List ServerResult → Run → Run
drain_next n x rest r = record r {
  channel = rest;
  stage = draining n;
  run_err = join_some r.run_err (drained_error x);
}

-- `serveResult <- serverResult{…}`, in the goroutine of a server.
unfoldable pub send_result : List Server → Server → Option Error → Run → Run
send_result others s listened r = record r {
  serving = others;
  channel = r.channel ++ (record { name = server_name s; error = serve s listened } ∷ []);
}

pub data Event : Type 0 where
  sent : Server → Option Error → Event
  stopped_early : ServerResult → Event
  signalled : Event
  shut_down : Server → Option Error → Event
  all_shut_down : Event
  drained : ServerResult → Event
  run_returned : Event

abbrev pub IsIn : Server → List Server → Type 0
IsIn s [] = ⊥
IsIn s (x ∷ xs) = (s ≡ x) ⊎ IsIn s xs

-- `make(chan serverResult, len(servers))`
abbrev pub buffer_size : List Server → ℕ
buffer_size servers = length servers

-- A step of `run`, or of one of the goroutines, which sends when the buffer has room: after the `Serve`
-- of its server has failed, or after that server was shut down.
pub data Step (servers : List Server) (r : Run) : Event → Run → Type 0 where
  fails :
      (before after : List Server) (s : Server) (listened : Option Error)
      → r.serving ≡ before ++ s ∷ after
      → length r.channel < buffer_size servers
      → Step servers r (sent s listened) (send_result (before ++ after) s listened r)
  closes :
      (before after : List Server) (s : Server)
      → r.serving ≡ before ++ s ∷ after
      → IsIn s r.closed
      → length r.channel < buffer_size servers
      → Step servers r
          (sent s (some (sentinel server_closed)))
          (send_result (before ++ after) s (some (sentinel server_closed)) r)
  selects_result :
      (x : ServerResult) (rest : List ServerResult)
      → r.stage ≡ selecting
      → r.channel ≡ x ∷ rest
      → Step servers r (stopped_early x) (select_result servers x rest r)
  selects_signal : r.stage ≡ selecting → Step servers r signalled (select_signal servers r)
  stops :
      (s : Server) (rest : List Server) (closed : Option Error)
      → r.stage ≡ stopping (s ∷ rest)
      → Step servers r (shut_down s closed) (stop_next s rest closed r)
  starts_drain : r.stage ≡ stopping [] → Step servers r all_shut_down (start_drain servers r)
  drains :
      (n : ℕ) (x : ServerResult) (rest : List ServerResult)
      → r.stage ≡ draining (suc n)
      → r.channel ≡ x ∷ rest
      → Step servers r (drained x) (drain_next n x rest r)
  returns : r.stage ≡ draining 0 → Step servers r run_returned (record r { stage = returned })

-- The runs of `run` from its start, with the events on the way, the last one first.
pub data Reaches (servers : List Server) : List Event → Run → Type 0 where
  starts : Reaches servers [] (start servers)
  then :
      {events : List Event} {r r' : Run} {e : Event}
      → Reaches servers events r
      → Step servers r e r'
      → Reaches servers (e ∷ events) r'
