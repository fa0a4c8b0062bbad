-- ===== src/Tests/Commands.antt =====
-- A run of the program that is asked to stop while both of its servers serve.
use graph_code_challenge.Api.Report.{returned-run_err}
use graph_code_challenge.Api.Events.{is_none, shut_servers}
use graph_code_challenge.Api.Counts.{send_result-Step}
use graph_code_challenge.Api.Ends.{run-Ends, HasLeftSelect, Ends}
use graph_code_challenge.Prelude.{
  inr, inl, ◌++◌, arith, ◌≡◌, ◌∷◌, Option, refl, pos, true, some, none, [], List,
}
use graph_code_challenge.Errors.{Error, is, sentinel, server_closed}
use graph_code_challenge.Config.{Config}
use graph_code_challenge.Api.{
  shutdown, drained_error, server_name, select_signal, ServerResult, drain_next, stop_next,
  start_drain, Server, api_server, pprof_server, Run, Reaches, Event, starts, then, closes, Step,
  selects_signal, stops, starts_drain, drains, returns, sent, signalled, shut_down, all_shut_down,
  drained, run_returned, start, managed_servers, serve, returned, send_result,
}

abbrev profiled : Config
profiled = record {
  app_mode = "production";
  http_port = pos 8080;
  database_url = "postgres://db";
  redis_url = "";
  redis_ttl = pos 60000000000;
  pprof_enabled = true;
  pprof_port = pos 6060;
}

abbrev closed_error : Option Error
closed_error = some (sentinel server_closed)

abbrev begun : Run
begun = start (managed_servers profiled)

abbrev asked : Run
asked = select_signal (managed_servers profiled) begun

abbrev stopped_one : Run
stopped_one = stop_next api_server (pprof_server ∷ []) none asked

abbrev stopped_both : Run
stopped_both = stop_next pprof_server [] none stopped_one

abbrev sent_one : Run
sent_one = send_result (api_server ∷ []) pprof_server closed_error stopped_both

abbrev waiting : Run
waiting = start_drain (managed_servers profiled) sent_one

abbrev result_of : Server → ServerResult
result_of s = record { name = server_name s; error = none }

abbrev drained_one : Run
drained_one = drain_next 1 (result_of pprof_server) [] waiting

abbrev sent_both : Run
sent_both = send_result [] api_server closed_error drained_one

abbrev drained_both : Run
drained_both = drain_next 0 (result_of api_server) [] sent_both

abbrev over : Run
over = record drained_both { stage = returned }

abbrev events : List Event
events =
    run_returned
    ∷ drained (result_of api_server)
    ∷ sent api_server closed_error
    ∷ drained (result_of pprof_server)
    ∷ all_shut_down
    ∷ sent pprof_server closed_error
    ∷ shut_down pprof_server none
    ∷ shut_down api_server none
    ∷ signalled
    ∷ []

stopped-Reaches :
    Reaches
      (managed_servers profiled)
      (shut_down pprof_server none ∷ shut_down api_server none ∷ signalled ∷ [])
      stopped_both
unfolding start managed_servers select_signal stop_next
stopped-Reaches =
    then (then (then starts (selects_signal refl)) (stops api_server (pprof_server ∷ []) none refl))
      (stops pprof_server [] none refl)

over-Reaches : Reaches (managed_servers profiled) events over
unfolding start managed_servers select_signal stop_next send_result start_drain drain_next serve is
over-Reaches =
    then
      (then
        (then
          (then
            (then
              (then stopped-Reaches
                (closes (api_server ∷ []) [] pprof_server refl (inr (inl refl)) (omega arith)))
              (starts_drain refl))
            (drains 1 (result_of pprof_server) [] refl refl))
          (closes [] [] api_server refl (inl refl) (omega arith)))
        (drains 0 (result_of api_server) [] refl refl))
      (returns refl)

returned-run_err_example :
    (shut_servers events ≡ api_server ∷ pprof_server ∷ []) × (is_none over.run_err ≡ true)
unfolding start managed_servers select_signal stop_next send_result start_drain drain_next serve is
    drained_error shutdown
returned-run_err_example = returned-run_err profiled events over over-Reaches refl

asked-left : HasLeftSelect stopped_both
unfolding start managed_servers select_signal stop_next
asked-left h = cc

run-Ends_example : Ends (managed_servers profiled) stopped_both
run-Ends_example =
    run-Ends profiled (shut_down pprof_server none ∷ shut_down api_server none ∷ signalled ∷ [])
      stopped_both stopped-Reaches asked-left

both_serving : stopped_both.serving ≡ (api_server ∷ []) ++ pprof_server ∷ []
unfolding start managed_servers select_signal stop_next
both_serving = refl

send_result-Step_example :
    Step
      (managed_servers profiled)
      stopped_both
      (sent pprof_server none)
      (send_result (api_server ∷ []) pprof_server none stopped_both)
send_result-Step_example =
    send_result-Step profiled
      (shut_down pprof_server none ∷ shut_down api_server none ∷ signalled ∷ []) stopped_both
      (api_server ∷ []) [] pprof_server none stopped-Reaches both_serving
