-- ===== src/Router/Served.antt =====
-- A request on its way through the middleware of a route.
use graph_code_challenge.Router.Layers.{routes-All, routes, is_counted, expected_layers}
use Prim.Native.Char.{Char}
use mathlib.Core.List.{append-nil}
use graph_code_challenge.Prelude.{
  All-map, All, subst, ap, ◌∙◌, sym, false, ◌==◌, decimal, ℕ, ◌≡◌, if◌then◌else◌, refl, true, [],
  List, String, Bool, ◌++◌, ◌∷◌,
}
use graph_code_challenge.Middleware.{
  counted, recovered, logged, log, metrics, recovery, chosen_id, shown_path, request_id, with_id,
  request_logger, Received, Next, Exchange, Outcome, completed, panicked, Entry, Observation,
  info_level, error_level,
}
use graph_code_challenge.Router.{
  Layer, request_id_layer, logger_layer, recovery_layer, metrics_layer,
}

-- What a handler made of a request: its outcome, and the exchange as it left it.
abbrev pub answer_status : Outcome × Exchange → ℕ
answer_status (completed, x) = x.status
answer_status (panicked p, x) = if x.is_written then x.status else 500

abbrev pub panic_entries : Received → Outcome × Exchange → List Entry
panic_entries request (completed, x) = []
panic_entries request (panicked p, x) =
    record {
      level = error_level;
      message = "panic recovered";
      attributes = with_id x.context_id (("panic", p) ∷ ("stack", request.stack) ∷ []);
    }
    ∷ []

abbrev pub access_entries : Bool → Received → Outcome × Exchange → List Entry
access_entries is_scrape request r =
    if is_scrape
    then []
    else record {
      level = info_level;
      message = "http request";
      attributes = with_id r.1.context_id (
          ("method", request.method)
          ∷ ("path", shown_path request)
          ∷ ("status", decimal (answer_status r))
          ∷ ("duration", request.elapsed)
          ∷ ("client_ip", request.client_ip)
          ∷ []);
    }
      ∷ []

-- A request that panics is not counted.
abbrev pub observations : Bool → Received → Outcome × Exchange → List Observation
observations true request (completed, x) =
    record { method = request.method; path = shown_path request; status = decimal x.status } ∷ []
observations _ request _ = []

pub record Served (is_observed is_scrape : Bool) (request : Received) (r final : Outcome × Exchange)
    : Type 0 where
  pub ended : final.0 ≡ completed
  pub status : final.1.status ≡ answer_status r
  pub id_kept : final.1.header_id ≡ r.1.header_id
  pub logs :
      final.1.logs ≡ r.1.logs ++ panic_entries request r ++ access_entries is_scrape request r
  pub observed : final.1.observed ≡ r.1.observed ++ observations is_observed request r

module _ (is_letter is_digit : Char → Bool) (random : String) where
  abbrev pub layer : Layer → Received → Next → Next
  layer request_id_layer request next = request_id is_letter is_digit random request next
  layer logger_layer request next = request_logger request next
  layer recovery_layer request next = recovery request next
  layer metrics_layer request next = metrics request next

  abbrev pub through : List Layer → Received → Next → Next
  through [] request handler = handler
  through (l ∷ layers) request handler = layer l request (through layers request handler)

  -- The exchange as the handler finds it.
  abbrev pub with_chosen_id : Received → Exchange → Exchange
  with_chosen_id request x =
      let id = chosen_id is_letter is_digit random request.request_id_header in
      record x { header_id = id; context_id = id }

  -- What the middleware after the id makes of a handler's outcome.
  abbrev after_handler : Bool → Received → Outcome × Exchange → Outcome × Exchange
  after_handler is_observed request r =
      logged request (recovered request (if is_observed then counted request r else r))

  after_handler-Served :
      (is_observed is_scrape : Bool) (request : Received) (r : Outcome × Exchange)
      → (request.url_path == "/metrics") ≡ is_scrape
      → Served is_observed
          (request.url_path == "/metrics")
          request
          r
          (after_handler is_observed request r)
  unfolding logged recovered counted log
  after_handler-Served true true request (completed, x) e = rw e (record {
    ended = refl;
    status = refl;
    id_kept = refl;
    logs = sym (append-nil (x.logs ++ []) ∙ append-nil x.logs);
    observed = refl;
  })
  after_handler-Served true true request (panicked p, x) e = rw e (record {
    ended = refl;
    status = refl;
    id_kept = refl;
    logs = sym (append-nil _);
    observed = sym (append-nil x.observed);
  })
  after_handler-Served true false request (completed, x) e = rw e (record {
    ended = refl;
    status = refl;
    id_kept = refl;
    logs = ap (λ l. l ++ access_entries false request (completed, x)) (sym (append-nil x.logs));
    observed = refl;
  })
  after_handler-Served true false request (panicked p, x) e = rw e (record {
    ended = refl;
    status = refl;
    id_kept = refl;
    logs = refl;
    observed = sym (append-nil x.observed);
  })
  after_handler-Served false true request (completed, x) e = rw e (record {
    ended = refl;
    status = refl;
    id_kept = refl;
    logs = sym (append-nil (x.logs ++ []) ∙ append-nil x.logs);
    observed = sym (append-nil x.observed);
  })
  after_handler-Served false true request (panicked p, x) e = rw e (record {
    ended = refl;
    status = refl;
    id_kept = refl;
    logs = sym (append-nil _);
    observed = sym (append-nil x.observed);
  })
  after_handler-Served false false request (completed, x) e = rw e (record {
    ended = refl;
    status = refl;
    id_kept = refl;
    logs = ap (λ l. l ++ access_entries false request (completed, x)) (sym (append-nil x.logs));
    observed = sym (append-nil x.observed);
  })
  after_handler-Served false false request (panicked p, x) e = rw e (record {
    ended = refl;
    status = refl;
    id_kept = refl;
    logs = refl;
    observed = sym (append-nil x.observed);
  })

  through_expected :
      (is_observed : Bool) (request : Received) (handler : Next) (x : Exchange)
      → Served is_observed
          (request.url_path == "/metrics")
          request
          (handler (with_chosen_id request x))
          (through (expected_layers is_observed) request handler x)
  unfolding request_id request_logger recovery metrics
  through_expected true request handler x =
      after_handler-Served true (request.url_path == "/metrics") request
        (handler (with_chosen_id request x)) refl
  through_expected false request handler x =
      after_handler-Served false (request.url_path == "/metrics") request
        (handler (with_chosen_id request x)) refl

  -- On every route, whatever the handler does: the request is answered; after a panic with status
  -- 500, unless the header has been written by then, whose status stays; the log has one line with
  -- the status that is answered, unless the path is that of the metrics, and one more for a panic;
  -- and one observation is made just if the handler ends without a panic and the route is neither
  -- that of the metrics nor that of the documentation.
  pub routes-Served :
      (request : Received) (handler : Next) (x : Exchange)
      → All
          (λ r.
            Served
              (is_counted r.endpoint)
              (request.url_path == "/metrics")
              request
              (handler (with_chosen_id request x))
              (through r.layers request handler x))
          routes
  routes-Served request handler x =
      All-map
        (λ r layers.
          subst
            (λ l.
              Served (is_counted r.endpoint) (request.url_path == "/metrics") request
                (handler (with_chosen_id request x)) (through l request handler x))
            (sym layers) (through_expected (is_counted r.endpoint) request handler x))
        routes routes-All
