-- ===== src/Gauge/Follows.antt =====
-- What the gauge shows, over a repository that keeps its contract.
use graph_code_challenge.Entity.{Task}
use graph_code_challenge.Prelude.{
  sym, subst, ◌++◌, false, true, ◌∙◌, ◌∷◌, ◌⊎◌, length, pos, Bool-cases, inl, ◌≡◌, refl, inr, List,
  ℤ, Bool,
}
use graph_code_challenge.Errors.{err, wrapped, Error}
use graph_code_challenge.Repository.{Repository}
use graph_code_challenge.Repository.Spec.{Implements, answered, failed}
use graph_code_challenge.Gauge.{
  left_by_others, [], GaugeState, Wake, ticked, context_done, refresh, refresh_loop,
  refresh_in_background,
}
use graph_code_challenge.Service

module _ (repo : Repository) (impl : Implements repo) where
  abbrev live_count : GaugeState repo.State → ℤ
  live_count g = pos (length (impl.live g.store))

  -- The gauge shows the number of live tasks; or it shows what it did, and the count failed. The tasks
  -- are as they were.
  pub record Follows (before after : GaugeState repo.State) : Type 0 where
    pub shown :
        (after.task_count ≡ live_count before)
        ⊎ ((after.task_count ≡ before.task_count)
            × (e : Error) × ((Service.count repo before.store).0 ≡ err e))
    pub table_kept : impl.live after.store ≡ impl.live before.store
    pub still_sound : impl.IsSound after.store

  refresh-Follows :
      (cancelled : Bool) (g : GaugeState repo.State)
      → impl.IsSound g.store
      → Follows g (refresh (Service.count repo) cancelled g)
  unfolding refresh Service.count
  refresh-Follows cancelled g sound =
      let (reads, still) = impl.count_law g.store sound in
      elim reads.answer [
        | answered e ↦
            rw e (record { shown = inl refl; table_kept = reads.kept; still_sound = still })
        | failed x e internal ↦ elim (Bool-cases cancelled) [
          | inl late ↦
              rw (e, late)
                (record {
                  shown = inr (refl, wrapped "taskservice: count tasks: " x, rw e refl);
                  table_kept = reads.kept;
                  still_sound = still;
                })
          | inr early ↦
              rw (e, early)
                (record {
                  shown = inr (refl, wrapped "taskservice: count tasks: " x, rw e refl);
                  table_kept = reads.kept;
                  still_sound = still;
                })
        ]
      ]

  -- The context is not done.
  abbrev pub is_running : List (Wake repo.State) → Bool
  is_running [] = true
  is_running (context_done ∷ wakes) = false
  is_running (_ ∷ wakes) = is_running wakes

  -- Other clients leave a store in order.
  abbrev pub AreSound : List (Wake repo.State) → Type 0
  AreSound [] = Unit
  AreSound (left_by_others store ∷ wakes) = impl.IsSound store × AreSound wakes
  AreSound (_ ∷ wakes) = AreSound wakes

  -- The table that the last of the other clients left.
  abbrev pub table_left : List (Wake repo.State) → List Task → List Task
  table_left [] ts = ts
  table_left (left_by_others store ∷ wakes) ts = table_left wakes (impl.live store)
  table_left (_ ∷ wakes) ts = table_left wakes ts

  loop-append :
      (wakes more : List (Wake repo.State)) (g : GaugeState repo.State)
      → is_running wakes ≡ true
      → refresh_loop (Service.count repo) (wakes ++ more) g
        ≡ refresh_loop (Service.count repo) more (refresh_loop (Service.count repo) wakes g)
  loop-append [] more g runs = refl
  loop-append (context_done ∷ wakes) more g runs = cc
  loop-append (left_by_others store ∷ wakes) more g runs =
      loop-append wakes more (record g { store = store }) runs
  loop-append (ticked cancelled ∷ wakes) more g runs =
      loop-append wakes more (refresh (Service.count repo) cancelled g) runs

  -- The refreshes leave the tasks as the other clients did.
  loop-table :
      (wakes : List (Wake repo.State)) (g : GaugeState repo.State) (ts : List Task)
      → impl.live g.store ≡ ts
      → impl.IsSound g.store
      → AreSound wakes
      → is_running wakes ≡ true
      → (impl.live (refresh_loop (Service.count repo) wakes g).store ≡ table_left wakes ts)
        × impl.IsSound (refresh_loop (Service.count repo) wakes g).store
  loop-table [] g ts at sound others runs = (at, sound)
  loop-table (context_done ∷ wakes) g ts at sound others runs = cc
  loop-table (left_by_others store ∷ wakes) g ts at sound (here, others) runs =
      loop-table wakes (record g { store = store }) (impl.live store) refl here others runs
  loop-table (ticked cancelled ∷ wakes) g ts at sound others runs =
      let f = refresh-Follows cancelled g sound in
      loop-table wakes (refresh (Service.count repo) cancelled g) ts (f.table_kept ∙ at)
        f.still_sound others runs

  -- What a refresh makes of the gauge.
  abbrev pub Shows : List Task → GaugeState repo.State → GaugeState repo.State → Type 0
  Shows ts before after =
      (after.task_count ≡ pos (length ts))
      ⊎ ((after.task_count ≡ before.task_count)
          × (e : Error) × ((Service.count repo before.store).0 ≡ err e))

  -- Over a repository that keeps its contract, whichever counts fail and whatever other clients do
  -- between the ticks: the refresh at the start, and each tick before the context is done, leaves
  -- the gauge at the number of live tasks at that time, or leaves it as it was and its count
  -- failed; and after the end of the context nothing changes it.
  pub refresh_in_background-Follows :
      (cancelled late : Bool) (wakes later : List (Wake repo.State)) (g : GaugeState repo.State)
      → impl.IsSound g.store
      → AreSound wakes
      → is_running wakes ≡ true
      → let run = refresh_in_background (Service.count repo) cancelled in
        Shows (impl.live g.store) g (run [] g)
        × Shows
            (table_left wakes (impl.live g.store))
            (run wakes g)
            (run (wakes ++ ticked late ∷ []) g)
        × (run (wakes ++ context_done ∷ later) g ≡ run wakes g)
  unfolding refresh_in_background
  refresh_in_background-Follows cancelled late wakes later g sound others runs =
      let first = refresh-Follows cancelled g sound in
      let g1 = refresh (Service.count repo) cancelled g in
      let g2 = refresh_loop (Service.count repo) wakes g1 in
      let (at, still) =
        loop-table wakes g1 (impl.live g.store) first.table_kept first.still_sound others runs in
      let last = refresh-Follows late g2 still in
      (
        first.shown,
        subst (λ ts. Shows ts g2 (refresh_loop (Service.count repo) (wakes ++ ticked late ∷ []) g1))
            at
            (subst (λ g'. Shows (impl.live g2.store) g2 g')
              (sym (loop-append wakes (ticked late ∷ []) g1 runs)) last.shown),
        loop-append wakes (context_done ∷ later) g1 runs,
      )
