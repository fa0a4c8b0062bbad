-- ===== src/Api/Events.antt =====
-- What the events of a run say: which servers were shut down, which results were sent and taken, and
-- whether all was in order.
use graph_code_challenge.Errors.{server_closed, Error, is}
use graph_code_challenge.Prelude.{
  ◌∷◌, arith, ◌&&◌, ◌≡◌, ◌++◌, refl, false, true, some, none, [], List, Bool, Option,
}
use graph_code_challenge.Api.{
  api_server, pprof_server, server_name, serve, ServerResult, Server, Event, sent, stopped_early,
  signalled, shut_down, all_shut_down, drained, run_returned,
}

abbrev pub is_none {ℓ} : {A : Type ℓ} → Option A → Bool
is_none none = true
is_none (some _) = false

abbrev pub all_b {ℓ} : {A : Type ℓ} → (A → Bool) → List A → Bool
all_b p [] = true
all_b p (x ∷ xs) = p x && all_b p xs

-- The servers that were shut down, in order.
abbrev pub shut_servers : List Event → List Server
shut_servers [] = []
shut_servers (shut_down s closed ∷ es) = shut_servers es ++ (s ∷ [])
shut_servers (_ ∷ es) = shut_servers es

abbrev pub sent_results : List Event → List ServerResult
sent_results [] = []
sent_results (sent s listened ∷ es) =
    sent_results es ++ (record { name = server_name s; error = serve s listened } ∷ [])
sent_results (_ ∷ es) = sent_results es

abbrev pub taken_results : List Event → List ServerResult
taken_results [] = []
taken_results (stopped_early x ∷ es) = taken_results es ++ (x ∷ [])
taken_results (drained x ∷ es) = taken_results es ++ (x ∷ [])
taken_results (_ ∷ es) = taken_results es

-- The select takes no result, every server stops without an error or with `http.ErrServerClosed`, and
-- every shutdown succeeds.
abbrev pub is_clean : Event → Bool
is_clean (sent s none) = true
is_clean (sent s (some e)) = is e server_closed
is_clean (stopped_early x) = false
is_clean (shut_down s closed) = is_none closed
is_clean _ = true

abbrev pub all_clean : List Event → Bool
all_clean events = all_b is_clean events

abbrev pub is_quiet : Event → Bool
is_quiet (stopped_early x) = false
is_quiet (shut_down s closed) = is_none closed
is_quiet (drained x) = is_none x.error
is_quiet _ = true

abbrev pub is_calm : Event → Bool
is_calm (stopped_early x) = false
is_calm (shut_down s closed) = is_none closed
is_calm _ = true

abbrev pub has_no_error : ServerResult → Bool
has_no_error x = is_none x.error

serve_clean :
    (s : Server) (listened : Option Error) → is_none (serve s listened) ≡ is_clean (sent s listened)
unfolding serve
serve_clean api_server none = refl
serve_clean api_server (some e) = ground arith
serve_clean pprof_server none = refl
serve_clean pprof_server (some e) = ground arith

all_b-snoc {ℓ} :
    {A : Type ℓ} (p : A → Bool) (xs : List A) (x : A)
    → all_b p (xs ++ (x ∷ [])) ≡ (all_b p xs && p x)
all_b-snoc p [] x = ground arith
all_b-snoc p (y ∷ ys) x = ground (arith, all_b-snoc p ys x)

pub clean_parts :
    (es : List Event) → all_clean es ≡ (all_b is_calm es && all_b has_no_error (sent_results es))
clean_parts [] = refl
clean_parts (sent s listened ∷ es) = ground (
  arith,
  serve_clean s listened,
  clean_parts es,
  all_b-snoc has_no_error (sent_results es)
      (record { name = server_name s; error = serve s listened }),
)
clean_parts (stopped_early x ∷ es) = refl
clean_parts (signalled ∷ es) = clean_parts es
clean_parts (shut_down s closed ∷ es) = ground (arith, clean_parts es)
clean_parts (all_shut_down ∷ es) = clean_parts es
clean_parts (drained x ∷ es) = clean_parts es
clean_parts (run_returned ∷ es) = clean_parts es

pub quiet_parts :
    (es : List Event)
    → all_b is_quiet es ≡ (all_b is_calm es && all_b has_no_error (taken_results es))
quiet_parts [] = refl
quiet_parts (sent s listened ∷ es) = quiet_parts es
quiet_parts (stopped_early x ∷ es) = refl
quiet_parts (signalled ∷ es) = quiet_parts es
quiet_parts (shut_down s closed ∷ es) = ground (arith, quiet_parts es)
quiet_parts (all_shut_down ∷ es) = quiet_parts es
quiet_parts (drained x ∷ es) =
    ground (arith, quiet_parts es, all_b-snoc has_no_error (taken_results es) x)
quiet_parts (run_returned ∷ es) = quiet_parts es
