-- ===== src/Api/Report.antt =====
-- What `run` has done when it returns: every server was shut down, every result was received, and the
-- error says whether all of it was in order.
use graph_code_challenge.Api.Events.{
  clean_parts, has_no_error, is_calm, is_quiet, quiet_parts, all_b, all_clean, is_none,
  sent_results, shut_servers, taken_results,
}
use graph_code_challenge.Api.Counts.{owed, Balanced-Reaches}
use graph_code_challenge.Config.{Config}
use mathlib.Core.List.{append-nil, append_assoc}
use graph_code_challenge.Errors.{sentinel, Error}
use graph_code_challenge.Prelude.{
  ◌+◌, length, String, ◌∷◌, sym, ap, sprintf, subst, ◌∙◌, arith, ◌&&◌, ◌≡◌, ◌++◌, refl, some, none,
  [], List, Option,
}
use graph_code_challenge.Api.{
  server_closed, managed_servers, Reaches, start, selecting, stopping, draining, returned, fails,
  closes, selects_result, selects_signal, stops, starts_drain, drains, returns, starts, then, Step,
  drain_next, start_drain, stop_next, select_signal, select_result, wrap_some, join_some, shutdown,
  send_result, Stage, drained_error, Run, api_server, pprof_server, server_name, serve,
  ServerResult, Server, Event, sent,
}

-- What has been shut down, by where `run` stands.
abbrev Stopped : List Server → Stage → List Event → Type 0
Stopped servers selecting es = shut_servers es ≡ []
Stopped servers (stopping rest) es = shut_servers es ++ rest ≡ servers
Stopped servers (draining n) es = shut_servers es ≡ servers
Stopped servers returned es = shut_servers es ≡ servers

record Reported (servers : List Server) (es : List Event) (r : Run) : Type 0 where
  results : sent_results es ≡ taken_results es ++ r.channel
  error : is_none r.run_err ≡ all_b is_quiet es
  stopped : Stopped servers r.stage es

is_none-join_some : (run e : Option Error) → is_none (join_some run e) ≡ (is_none e && is_none run)
is_none-join_some none none = refl
is_none-join_some (some r) none = refl
is_none-join_some none (some e) = refl
is_none-join_some (some r) (some e) = refl

is_none-wrap_some : (p : String) (e : Option Error) → is_none (wrap_some p e) ≡ is_none e
is_none-wrap_some p none = refl
is_none-wrap_some p (some e) = refl

is_none-shutdown :
    (s : Server) (closed : Option Error) → is_none (shutdown s closed) ≡ is_none closed
unfolding shutdown
is_none-shutdown api_server closed = is_none-wrap_some "httpserver: shutdown: " closed
is_none-shutdown pprof_server closed = is_none-wrap_some "profiler: shutdown: " closed

is_none-drained_error : (x : ServerResult) → is_none (drained_error x) ≡ is_none x.error
unfolding drained_error
is_none-drained_error x = is_none-wrap_some (sprintf "%s: " (x.name ∷ [])) x.error

at_stage :
    {servers : List Server} {es : List Event} {r : Run} {st : Stage}
    → Reported servers es r
    → r.stage ≡ st
    → Stopped servers st es
at_stage {servers} {es} reported at = subst (λ st. Stopped servers st es) at reported.stopped

taken-next :
    (es : List Event) {channel rest : List ServerResult} {x : ServerResult}
    → sent_results es ≡ taken_results es ++ channel
    → channel ≡ x ∷ rest
    → sent_results es ≡ (taken_results es ++ (x ∷ [])) ++ rest
taken-next es {rest = rest} {x} results first =
    results
    ∙ ap (λ c. taken_results es ++ c) first
    ∙ sym (append_assoc (taken_results es) (x ∷ []) rest)

Stopped-sent :
    (servers : List Server) (st : Stage) (es : List Event) (s : Server) (listened : Option Error)
    → Stopped servers st es
    → Stopped servers st (sent s listened ∷ es)
Stopped-sent servers selecting es s listened h = h
Stopped-sent servers (stopping rest) es s listened h = h
Stopped-sent servers (draining n) es s listened h = h
Stopped-sent servers returned es s listened h = h

Reported-sent :
    (servers : List Server) (es : List Event) (r : Run) (others : List Server) (s : Server)
    (listened : Option Error)
    → Reported servers es r
    → Reported servers (sent s listened ∷ es) (send_result others s listened r)
unfolding send_result
Reported-sent servers es r others s listened reported =
    let sent_now = record { name = server_name s; error = serve s listened } ∷ [] in
    record {
      results =
          ap (λ l. l ++ sent_now) reported.results
          ∙ append_assoc (taken_results es) r.channel sent_now;
      error = reported.error;
      stopped = Stopped-sent servers r.stage es s listened reported.stopped;
    }

Reported-Step :
    (servers : List Server) (es : List Event) (r r' : Run) (e : Event)
    → Reported servers es r
    → Step servers r e r'
    → Reported servers (e ∷ es) r'
unfolding send_result select_result select_signal stop_next start_drain drain_next
Reported-Step servers es r r' e reported (fails before after s listened at room) =
    Reported-sent servers es r (before ++ after) s listened reported
Reported-Step servers es r r' e reported (closes before after s at shut room) =
    Reported-sent servers es r (before ++ after) s (some (sentinel server_closed)) reported
Reported-Step servers es r r' e reported (selects_result x rest at first) = record {
  results = taken-next es reported.results first;
  error = refl;
  stopped = ap (λ l. l ++ servers) (at_stage reported at);
}
Reported-Step servers es r r' e reported (selects_signal at) = record {
  results = reported.results;
  error = reported.error;
  stopped = ap (λ l. l ++ servers) (at_stage reported at);
}
Reported-Step servers es r r' e reported (stops s rest closed at) = record {
  results = reported.results;
  error =
      is_none-join_some r.run_err (shutdown s closed)
      ∙ ap (λ b. b && is_none r.run_err) (is_none-shutdown s closed)
      ∙ ap (λ b. is_none closed && b) reported.error;
  stopped = append_assoc (shut_servers es) (s ∷ []) rest ∙ at_stage reported at;
}
Reported-Step servers es r r' e reported (starts_drain at) = record {
  results = reported.results;
  error = reported.error;
  stopped = sym (append-nil (shut_servers es)) ∙ at_stage reported at;
}
Reported-Step servers es r r' e reported (drains n x rest at first) = record {
  results = taken-next es reported.results first;
  error =
      is_none-join_some r.run_err (drained_error x)
      ∙ ap (λ b. b && is_none r.run_err) (is_none-drained_error x)
      ∙ ap (λ b. is_none x.error && b) reported.error;
  stopped = at_stage reported at;
}
Reported-Step servers es r r' e reported (returns at) = record {
  results = reported.results;
  error = reported.error;
  stopped = at_stage reported at;
}

Reported-Reaches :
    (servers : List Server) (es : List Event) (r : Run)
    → Reaches servers es r
    → Reported servers es r
unfolding start
Reported-Reaches servers es r starts = record { results = refl; error = refl; stopped = refl }
Reported-Reaches servers es r' (then {events = earlier} {r = r} {e = e} before step) =
    Reported-Step servers earlier r r' e (Reported-Reaches servers earlier r before) step

nothing_left : (xs ys : List ServerResult) → xs ≡ ys ++ [] → xs ≡ ys
nothing_left xs ys e = e ∙ append-nil ys

no_results :
    (serving : List Server) (channel : List ServerResult)
    → length serving + length channel ≡ 0
    → channel ≡ []
no_results serving [] e = refl
no_results serving (x ∷ xs) e = absurd (omega arith)

all_received :
    (servers : List Server) (es : List Event) (r : Run)
    → Reaches servers es r
    → r.stage ≡ returned
    → sent_results es ≡ taken_results es
all_received servers es r reached at =
    let b = Balanced-Reaches servers es r reached in
    let now = ap (λ st. owed servers st r.completed) at in
    let reported = Reported-Reaches servers es r reached in
    let empty = no_results r.serving r.channel (b.balance ∙ now) in
    nothing_left (sent_results es) (taken_results es)
      (reported.results ∙ ap (λ c. taken_results es ++ c) empty)

-- When `run` returns, it has shut down each of its servers once, in order; and it returns no error
-- just if its `select` took the signal and not the result of a server, every server stopped without
-- an error or with `http.ErrServerClosed`, and every shutdown succeeded.
pub returned-run_err :
    (cfg : Config) (es : List Event) (r : Run)
    → Reaches (managed_servers cfg) es r
    → r.stage ≡ returned
    → (shut_servers es ≡ managed_servers cfg) × (is_none r.run_err ≡ all_clean es)
returned-run_err cfg es r reached at =
    let servers = managed_servers cfg in
    let reported = Reported-Reaches servers es r reached in
    (
      at_stage reported at,
      reported.error
          ∙ quiet_parts es
          ∙ ap (λ l. all_b is_calm es && all_b has_no_error l)
              (sym (all_received servers es r reached at))
          ∙ sym (clean_parts es),
    )
