-- ===== src/Resources.antt =====
-- Connections that the program opens and has to close again, as the sequence of the calls that do so.
use graph_code_challenge.Prelude.{
  if◌then◌else◌, ◌≡◌, ◌∷◌, false, true, some, none, [], List, Option, Bool,
}

pub data Handle : Type 0 where
  postgres_pool redis_client database_handle : Handle

pub data Call : Type 0 where
  acquired released : Handle → Call

abbrev same_handle : Handle → Handle → Bool
same_handle postgres_pool postgres_pool = true
same_handle redis_client redis_client = true
same_handle database_handle database_handle = true
same_handle _ _ = false

abbrev release_top : Handle → List Handle → Option (List Handle)
release_top h [] = none
release_top h (top ∷ rest) = if same_handle h top then some rest else none

-- The handles that are open after the calls, the last one first; or none if a call closes another
-- handle than the last that is open.
abbrev pub open_after : List Handle → List Call → Option (List Handle)
open_after held [] = some held
open_after held (acquired h ∷ calls) = open_after (h ∷ held) calls
open_after held (released h ∷ calls) = elim (release_top h held) [
  | none ↦ none
  | some rest ↦ open_after rest calls
]

-- All that was opened was closed, the last first.
abbrev pub IsBalanced : List Call → Type 0
IsBalanced calls = open_after [] calls ≡ some []
