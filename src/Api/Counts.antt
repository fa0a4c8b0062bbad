-- ===== src/Api/Counts.antt =====
-- How many results `run` still has to receive: as many as the goroutines and the buffer hold, so no
-- goroutine finds the buffer full.
use graph_code_challenge.Errors.{Error, sentinel}
use graph_code_challenge.Config.{Config}
use graph_code_challenge.Prelude.{
  some, ap, ◌≤◌, ◌≡◌, arith, ◌-◌, ◌+◌, ◌++◌, length, refl, [], List, ℕ, Option,
}
use graph_code_challenge.Api.{
  server_closed, managed_servers, serve, server_name, drain_next, start_drain, ◌∷◌, stop_next,
  select_signal, select_result, send_result, start, Server, Run, Stage, Step, Reaches, Event,
  selecting, stopping, draining, returned, fails, closes, sent, selects_result, selects_signal,
  stops, starts_drain, drains, returns, starts, then,
}

-- The results that are still to be received.
abbrev pub owed : List Server → Stage → ℕ → ℕ
owed servers selecting completed = length servers
owed servers (stopping rest) completed = length servers - completed
owed servers (draining n) completed = n
owed servers returned completed = 0

pub record Balanced (servers : List Server) (r : Run) : Type 0 where
  pub balance : length r.serving + length r.channel ≡ owed servers r.stage r.completed
  pub bounded : owed servers r.stage r.completed ≤ length servers
  pub counted : r.completed ≤ length servers
  pub early : r.stage ≡ selecting → r.completed ≡ 0

pub length-append : {A : Type 0} (xs ys : List A) → length (xs ++ ys) ≡ length xs + length ys
length-append [] ys = omega arith
length-append (x ∷ xs) ys = omega (arith, length-append xs ys)

Balanced-sent :
    (servers : List Server) (r : Run) (before after : List Server) (s : Server)
    (listened : Option Error)
    → r.serving ≡ before ++ s ∷ after
    → Balanced servers r
    → Balanced servers (send_result (before ++ after) s listened r)
unfolding send_result
Balanced-sent servers r before after s listened at b =
    let more = length-append before (s ∷ after) in
    let fewer = length-append before after in
    let longer =
      length-append r.channel (record { name = server_name s; error = serve s listened } ∷ []) in
    let here = ap length at in
    let balance = b.balance in
    record { balance = omega arith; bounded = b.bounded; counted = b.counted; early = b.early }

pub Balanced-Step :
    (servers : List Server) (r r' : Run) (e : Event)
    → Balanced servers r
    → Step servers r e r'
    → Balanced servers r'
unfolding send_result select_result select_signal stop_next start_drain drain_next
Balanced-Step servers r r' e b (fails before after s listened at room) =
    Balanced-sent servers r before after s listened at b
Balanced-Step servers r r' e b (closes before after s at shut room) =
    Balanced-sent servers r before after s (some (sentinel server_closed)) at b
Balanced-Step servers r r' e b (selects_result x rest at first) =
    let balance = b.balance in
    let now = ap (λ st. owed servers st r.completed) at in
    let held = ap length first in
    record { balance = omega arith; bounded = omega arith; counted = omega arith; early = λ x. cc }
Balanced-Step servers r r' e b (selects_signal at) =
    let balance = b.balance in
    let none_yet = b.early at in
    let now = ap (λ st. owed servers st r.completed) at in
    record { balance = omega arith; bounded = omega arith; counted = b.counted; early = λ x. cc }
Balanced-Step servers r r' e b (stops s rest closed at) =
    let balance = b.balance in
    let now = ap (λ st. owed servers st r.completed) at in
    record { balance = omega arith; bounded = omega arith; counted = b.counted; early = λ x. cc }
Balanced-Step servers r r' e b (starts_drain at) =
    let balance = b.balance in
    let now = ap (λ st. owed servers st r.completed) at in
    record { balance = omega arith; bounded = omega arith; counted = b.counted; early = λ x. cc }
Balanced-Step servers r r' e b (drains n x rest at first) =
    let balance = b.balance in
    let bounded = b.bounded in
    let now = ap (λ st. owed servers st r.completed) at in
    let held = ap length first in
    record { balance = omega arith; bounded = omega arith; counted = b.counted; early = λ x. cc }
Balanced-Step servers r r' e b (returns at) =
    let balance = b.balance in
    let now = ap (λ st. owed servers st r.completed) at in
    record { balance = omega arith; bounded = omega arith; counted = b.counted; early = λ x. cc }

pub Balanced-Reaches :
    (servers : List Server) (events : List Event) (r : Run)
    → Reaches servers events r
    → Balanced servers r
unfolding start
Balanced-Reaches servers events r starts = record {
  balance = omega arith;
  bounded = omega arith;
  counted = omega arith;
  early = λ x. refl;
}
Balanced-Reaches servers events r' (then {r = r} {e = e} before step) =
    Balanced-Step servers r r' e (Balanced-Reaches servers _ r before) step

-- Whatever the `Serve` of a server returns, and whenever it does, the buffer has room for its result: no
-- goroutine ever waits to send.
pub send_result-Step :
    (cfg : Config) (events : List Event) (r : Run) (before after : List Server) (s : Server)
    (listened : Option Error)
    → Reaches (managed_servers cfg) events r
    → r.serving ≡ before ++ s ∷ after
    → Step (managed_servers cfg) r (sent s listened) (send_result (before ++ after) s listened r)
send_result-Step cfg events r before after s listened reached at =
    let b = Balanced-Reaches (managed_servers cfg) events r reached in
    let balance = b.balance in
    let bounded = b.bounded in
    let here = ap length at in
    let more = length-append before (s ∷ after) in fails before after s listened at (omega arith)
