-- ===== src/Api/Ends.antt =====
-- `run` ends: once it has left its `select`, every way to go on reaches its return, whatever the order
-- in which the servers stop and whatever net/http answers.
use graph_code_challenge.Api.Closed.{at_stage, Tracked-Step, Tracked, Tracked-Reaches}
use graph_code_challenge.Errors.{Error, sentinel}
use graph_code_challenge.Config.{Config}
use graph_code_challenge.Api.Counts.{owed, length-append, Balanced-Step, Balanced-Reaches, Balanced}
use graph_code_challenge.Prelude.{
  sym, subst, ◌++◌, some, ◌∙◌, ap, ◌≤◌, ◌+◌, length, arith, ◌⊎◌, ◌<◌, ◌≡◌, ◌≢◌, ◌*◌, refl, inr, inl,
  suc, zero, none, [], List, ℕ, Option,
}
use graph_code_challenge.Api.{
  IsIn, server_closed, run_returned, serve, server_name, sent, drain_next, drained, start_drain,
  all_shut_down, shut_down, stop_next, ◌∷◌, select_signal, select_result, managed_servers,
  ServerResult, send_result, Server, Run, Stage, Step, Reaches, Event, selecting, stopping,
  draining, returned, fails, closes, selects_result, selects_signal, stops, starts_drain, drains,
  returns,
}

-- A step that is taken in the end if no other is: all but the failure of a server that was not shut
-- down.
abbrev pub IsSure : {servers : List Server} {r r' : Run} {e : Event} → Step servers r e r' → Type 0
IsSure (fails before after s listened at room) = ⊥
IsSure _ = Unit

-- Some such step is possible until `run` has returned, and no run of steps goes on for ever.
pub data Ends (servers : List Server) : Run → Type 0 where
  ended : {r : Run} → r.stage ≡ returned → Ends servers r
  goes_on :
      {r : Run} (e : Event) (next : Run)
      → (step : Step servers r e next) → IsSure step
      → ((e' : Event) (r' : Run) → Step servers r e' r' → Ends servers r')
      → Ends servers r

abbrev ahead : List Server → Stage → ℕ
ahead servers selecting = 2 * length servers + 4
ahead servers (stopping rest) = length rest + length servers + 3
ahead servers (draining n) = n + 2
ahead servers returned = 0

abbrev weight : List Server → Run → ℕ
weight servers r = 2 * length r.serving + length r.channel + ahead servers r.stage

weight-sent :
    (servers : List Server) (r : Run) (before after : List Server) (s : Server)
    (listened : Option Error)
    → r.serving ≡ before ++ s ∷ after
    → weight servers (send_result (before ++ after) s listened r) < weight servers r
unfolding send_result
weight-sent servers r before after s listened at =
    let more = length-append before (s ∷ after) in
    let fewer = length-append before after in
    let longer =
      length-append r.channel (record { name = server_name s; error = serve s listened } ∷ []) in
    let here = ap length at in omega arith

-- Every step is one ahead.
weight-Step :
    (servers : List Server) (r r' : Run) (e : Event)
    → Step servers r e r'
    → weight servers r' < weight servers r
unfolding send_result select_result select_signal stop_next start_drain drain_next
weight-Step servers r r' e (fails before after s listened at room) =
    weight-sent servers r before after s listened at
weight-Step servers r r' e (closes before after s at shut room) =
    weight-sent servers r before after s (some (sentinel server_closed)) at
weight-Step servers r r' e (selects_result x rest at first) =
    let now = ap (ahead servers) at in let held = ap length first in omega arith
weight-Step servers r r' e (selects_signal at) = let now = ap (ahead servers) at in omega arith
weight-Step servers r r' e (stops s rest closed at) = let now = ap (ahead servers) at in omega arith
weight-Step servers r r' e (starts_drain at) = let now = ap (ahead servers) at in omega arith
weight-Step servers r r' e (drains n x rest at first) =
    let now = ap (ahead servers) at in let held = ap length first in omega arith
weight-Step servers r r' e (returns at) = let now = ap (ahead servers) at in omega arith

-- `run` waits at its `select` for a server or a signal, for as long as it takes.
abbrev pub HasLeftSelect : Run → Type 0
HasLeftSelect r = r.stage ≢ selecting

HasLeftSelect-Step :
    (servers : List Server) (r r' : Run) (e : Event)
    → Step servers r e r'
    → HasLeftSelect r
    → HasLeftSelect r'
unfolding send_result select_result select_signal stop_next start_drain drain_next
HasLeftSelect-Step servers r r' e (fails before after s listened at room) left = left
HasLeftSelect-Step servers r r' e (closes before after s at shut room) left = left
HasLeftSelect-Step servers r r' e (selects_result x rest at first) left = absurd (left at)
HasLeftSelect-Step servers r r' e (selects_signal at) left = absurd (left at)
HasLeftSelect-Step servers r r' e (stops s rest closed at) left = λ h. cc
HasLeftSelect-Step servers r r' e (starts_drain at) left = λ h. cc
HasLeftSelect-Step servers r r' e (drains n x rest at first) left = λ h. cc
HasLeftSelect-Step servers r r' e (returns at) left = λ h. cc

abbrev CanGoOn : List Server → Run → Type 0
CanGoOn servers r = (e : Event) × (r' : Run) × (step : Step servers r e r') × IsSure step

-- A result is in the buffer, or a server that was shut down will put one there.
can_drain :
    (servers : List Server) (r : Run) (n : ℕ) (channel : List ServerResult) (serving : List Server)
    → Tracked servers r
    → r.channel ≡ channel
    → r.serving ≡ serving
    → length serving + length channel ≡ suc n
    → suc n ≤ length servers
    → r.stage ≡ draining (suc n)
    → CanGoOn servers r
can_drain servers r n (x ∷ rest) serving t held still owes bound at =
    (drained x, drain_next n x rest r, drains n x rest at held, tt)
can_drain servers r n [] (s ∷ others) t held still owes bound at =
    let none_held = ap length held in
    let shut =
      subst (IsIn s) (sym (at_stage t at)) (t.known s (subst (IsIn s) (sym still) (inl refl))) in
    let e = some (sentinel server_closed) in
    (sent s e, send_result others s e r, closes [] others s still shut (omega arith), tt)
can_drain servers r n [] [] t held still owes bound at = absurd (omega arith)

can_go_on :
    (servers : List Server) (r : Run) (st : Stage)
    → Balanced servers r
    → Tracked servers r
    → r.stage ≡ st
    → st ≢ selecting
    → (st ≡ returned) ⊎ CanGoOn servers r
can_go_on servers r selecting b t at left = absurd (left refl)
can_go_on servers r (stopping (s ∷ rest)) b t at left =
    inr (shut_down s none, stop_next s rest none r, stops s rest none at, tt)
can_go_on servers r (stopping []) b t at left =
    inr (all_shut_down, start_drain servers r, starts_drain at, tt)
can_go_on servers r (draining (suc n)) b t at left =
    let now = ap (λ st. owed servers st r.completed) at in
    let bounded = b.bounded in
    inr (can_drain servers r n r.channel r.serving t refl refl (b.balance ∙ now) (omega arith) at)
can_go_on servers r (draining zero) b t at left =
    inr (run_returned, record r { stage = returned }, returns at, tt)
can_go_on servers r returned b t at left = inl refl

weight-Ends :
    (servers : List Server) (fuel : ℕ) (r : Run)
    → weight servers r < fuel
    → Balanced servers r
    → Tracked servers r
    → HasLeftSelect r
    → Ends servers r
weight-Ends servers zero r low b t left = absurd (omega arith)
weight-Ends servers (suc fuel) r low b t left = elim (can_go_on servers r r.stage b t refl left) [
  | inl at ↦ ended at
  | inr (e, next, step, sure) ↦ goes_on e next step sure (λ e' r' step'.
      let less = weight-Step servers r r' e' step' in
      weight-Ends servers fuel r' (omega arith) (Balanced-Step servers r r' e' b step')
        (Tracked-Step servers r r' e' t step') (HasLeftSelect-Step servers r r' e' step' left))
]

-- Once it has left its `select`, `run` returns: however the goroutines and `run` take turns and
-- whatever net/http answers, until it has returned some step is possible that does not wait for a server
-- to fail, and the steps come to an end. A server that was shut down stops, as net/http documents.
pub run-Ends :
    (cfg : Config) (events : List Event) (r : Run)
    → Reaches (managed_servers cfg) events r
    → HasLeftSelect r
    → Ends (managed_servers cfg) r
run-Ends cfg events r reached left =
    let servers = managed_servers cfg in
    weight-Ends servers (suc (weight servers r)) r (omega arith)
      (Balanced-Reaches servers events r reached) (Tracked-Reaches servers events r reached) left
