-- ===== src/Api/Closed.antt =====
-- Which servers `run` has shut down, and which still serve.
use graph_code_challenge.Errors.{Error, sentinel}
use mathlib.Core.List.{append-nil, append_assoc}
use graph_code_challenge.Prelude.{
  sym, subst, ◌++◌, some, ◌∙◌, ap, ◌≡◌, refl, inr, inl, [], List, Option,
}
use graph_code_challenge.Api.{
  then, IsIn, start, server_closed, drain_next, start_drain, stop_next, ◌∷◌, select_signal,
  select_result, send_result, Server, Run, Stage, Step, Reaches, Event, selecting, stopping,
  draining, returned, fails, closes, selects_result, selects_signal, stops, starts_drain, starts,
  then, start, drains, returns,
}

-- Which servers were shut down, by where `run` stands.
abbrev pub ClosedAt : List Server → Stage → List Server → Type 0
ClosedAt servers selecting closed = closed ≡ []
ClosedAt servers (stopping rest) closed = closed ++ rest ≡ servers
ClosedAt servers (draining n) closed = closed ≡ servers
ClosedAt servers returned closed = closed ≡ servers

pub record Tracked (servers : List Server) (r : Run) : Type 0 where
  pub known : (s : Server) → IsIn s r.serving → IsIn s servers
  pub closed_so_far : ClosedAt servers r.stage r.closed

IsIn-without :
    (before after : List Server) (s s' : Server)
    → IsIn s (before ++ after)
    → IsIn s (before ++ s' ∷ after)
IsIn-without [] after s s' h = inr h
IsIn-without (x ∷ xs) after s s' (inl e) = inl e
IsIn-without (x ∷ xs) after s s' (inr h) = inr (IsIn-without xs after s s' h)

Tracked-sent :
    (servers : List Server) (r : Run) (before after : List Server) (s : Server)
    (listened : Option Error)
    → r.serving ≡ before ++ s ∷ after
    → Tracked servers r
    → Tracked servers (send_result (before ++ after) s listened r)
unfolding send_result
Tracked-sent servers r before after s listened at t = record {
  known = λ x h. t.known x (subst (IsIn x) (sym at) (IsIn-without before after x s h));
  closed_so_far = t.closed_so_far;
}

pub at_stage :
    {servers : List Server} {r : Run} {st : Stage}
    → Tracked servers r
    → r.stage ≡ st
    → ClosedAt servers st r.closed
at_stage {servers} {r} t at = subst (λ st. ClosedAt servers st r.closed) at t.closed_so_far

pub Tracked-Step :
    (servers : List Server) (r r' : Run) (e : Event)
    → Tracked servers r
    → Step servers r e r'
    → Tracked servers r'
unfolding select_result select_signal stop_next start_drain drain_next
Tracked-Step servers r r' e t (fails before after s listened at room) =
    Tracked-sent servers r before after s listened at t
Tracked-Step servers r r' e t (closes before after s at shut room) =
    Tracked-sent servers r before after s (some (sentinel server_closed)) at t
Tracked-Step servers r r' e t (selects_result x rest at first) = record {
  known = t.known;
  closed_so_far = ap (λ l. l ++ servers) (at_stage t at);
}
Tracked-Step servers r r' e t (selects_signal at) = record {
  known = t.known;
  closed_so_far = ap (λ l. l ++ servers) (at_stage t at);
}
Tracked-Step servers r r' e t (stops s rest closed at) = record {
  known = t.known;
  closed_so_far = append_assoc r.closed (s ∷ []) rest ∙ at_stage t at;
}
Tracked-Step servers r r' e t (starts_drain at) = record {
  known = t.known;
  closed_so_far = sym (append-nil r.closed) ∙ at_stage t at;
}
Tracked-Step servers r r' e t (drains n x rest at first) = record {
  known = t.known;
  closed_so_far = at_stage t at;
}
Tracked-Step servers r r' e t (returns at) = record {
  known = t.known;
  closed_so_far = at_stage t at;
}

pub Tracked-Reaches :
    (servers : List Server) (events : List Event) (r : Run)
    → Reaches servers events r
    → Tracked servers r
unfolding start
Tracked-Reaches servers events r starts = record { known = λ s h. h; closed_so_far = refl }
Tracked-Reaches servers events r' (then {r = r} {e = e} before step) =
    Tracked-Step servers r r' e (Tracked-Reaches servers _ r before) step
