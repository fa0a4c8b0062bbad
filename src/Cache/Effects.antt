-- ===== src/Cache/Effects.antt =====
-- What the decorator's own operations on Redis do to the data set while Redis is up.
use graph_code_challenge.Cache.Keys.{list_gen_key}
use graph_code_challenge.Json.{Json}
use graph_code_challenge.Redis.Effects.{
  Ran-set_nx, Ran-release, Ran-generation, Ran-get, Ran-del, Ran-set, IsFree, HasPut,
}
use graph_code_challenge.Redis.Laws.{⊑_refl, Ran, ◌⊑◌, ⊑_trans, IsUp, RedisLaws}
use graph_code_challenge.Cache.Base.{
  generation_ttl_ms, loaded, unmarshal, load, warn_failed, call, warn, S, Db,
}
use graph_code_challenge.Errors.{Result-cases, is, Error, Result, err, ok}
use graph_code_challenge.Prelude.{none, ap, ◌⊎◌, ℤ, ◌∙◌, Option, ◌≡◌, String, refl, inr, inl, some}
use graph_code_challenge.Redis.{
  integer, set_nx, release_count_lock_script, text, list_generation_script, eval, Command, get, set,
  del, Value, Reply, nothing, value, Dataset,
}

module _ (d : Db) (laws : RedisLaws d.conn) where
  abbrev pub data_of : S d → Dataset
  data_of s = laws.dataset s.cache

  -- The repository below is as it was, and no token was drawn.
  pub record Aside (s s' : S d) : Type 0 where
    pub below : s'.below ≡ s.below
    pub drawn : s'.drawn ≡ s.drawn

  -- Nothing is written; keys may have gone.
  abbrev pub Quiet : S d → S d → Type 0
  Quiet s s' = Aside s s' × (data_of s' ⊑ data_of s)

  -- A key is written; others may have gone.
  abbrev pub Puts : String → Value → S d → S d → Type 0
  Puts k v s s' = Aside s s' × HasPut k v (data_of s) (data_of s')

  -- A key is deleted; others may have gone.
  abbrev Drops : String → S d → S d → Type 0
  Drops k s s' = Quiet s s' × IsFree k (data_of s')

  Aside-trans : {a b c : S d} → Aside a b → Aside b c → Aside a c
  Aside-trans f g = record { below = g.below ∙ f.below; drawn = g.drawn ∙ f.drawn }

  Quiet-trans : {a b c : S d} → Quiet a b → Quiet b c → Quiet a c
  Quiet-trans (f, p) (g, q) = (Aside-trans f g, ⊑_trans q p)

  warn_failed-Aside :
      (operation : String) (key : Option String) (r : Result Reply) (s : S d)
      → Aside s (warn_failed d operation key r s)
        × (data_of (warn_failed d operation key r s) ⊑ data_of s)
  unfolding warn
  warn_failed-Aside operation key (ok r) s =
      (record { below = refl; drawn = refl }, ⊑_refl (data_of s))
  warn_failed-Aside operation key (err e) s =
      (record { below = refl; drawn = refl }, ⊑_refl (data_of s))

  call-Aside : (c : Command) (s : S d) → Aside s (call d c s).1
  unfolding call
  call-Aside c s = record { below = refl; drawn = refl }

  module _ (up : IsUp d.conn) where
    -- The reply of a command, and how it ran.
    abbrev Answered : Command → S d → Type 0
    Answered c s =
        (r : Reply) × ((call d c s).0 ≡ ok r) × Ran c (data_of s) r (data_of (call d c s).1)

    Answered-by : (c : Command) (s : S d) → Answered c s
    unfolding call
    Answered-by c s = let (r, e) = up c s.cache in (r, e, laws.ran c s.cache r e)

    pub call-get :
        (k : String) (s : S d)
        → Quiet s (call d (get k) s).1
          × (((v : Value) × (data_of s k ≡ some v) × ((call d (get k) s).0 ≡ ok (value v)))
              ⊎ ((call d (get k) s).0 ≡ ok nothing))
    call-get k s =
        let (r, e, ran) = Answered-by (get k) s in
        let (kept, outcome) = Ran-get ran in
        (
          (call-Aside (get k) s, kept),
          elim outcome [
            | inl (v, there, same) ↦ inl (v, there, e ∙ ap ok same)
            | inr same ↦ inr (e ∙ ap ok same)
          ],
        )

    -- `store`, and every other SET with its warning.
    pub set-Puts :
        (operation : String) (key : Option String) (k : String) (v : Value) (ttl : ℤ) (s : S d)
        → let (r, s1) = call d (set k v ttl) s in Puts k v s (warn_failed d operation key r s1)
    set-Puts operation key k v ttl s =
        let (r, e, ran) = Answered-by (set k v ttl) s in
        let (r', s1) = call d (set k v ttl) s in
        let (aside, kept) = warn_failed-Aside operation key r' s1 in
        (
          Aside-trans (call-Aside (set k v ttl) s) aside,
          λ j w there. Ran-set ran j w (kept j w there),
        )

    pub del-Drops :
        (operation : String) (key : Option String) (k : String) (s : S d)
        → let (r, s1) = call d (del k) s in Drops k s (warn_failed d operation key r s1)
    del-Drops operation key k s =
        let (r, e, ran) = Answered-by (del k) s in
        let (r', s1) = call d (del k) s in
        let (aside, kept) = warn_failed-Aside operation key r' s1 in
        let (left, free) = Ran-del ran in
        (
          (Aside-trans (call-Aside (del k) s) aside, ⊑_trans kept left),
          λ w there. free w (kept k w there),
        )

    -- A load answers with what a key holds, if it holds a value that decodes.
    abbrev pub Loads : {A : Type 0} → (Json → Result A) → String → S d → Option A × S d → Type 0
    Loads {A} decode key s (o, s1) =
        Quiet s s1
        × ((o ≡ none)
            ⊎ ((v : Value) × (a : A) × (data_of s key ≡ some v)
                × (unmarshal decode v ≡ ok a)
                × (o ≡ some a)))

    warn-Quiet :
        (operation : String) (key : Option String) (e : Error) (s : S d)
        → Quiet s (warn d operation key e s)
    unfolding warn
    warn-Quiet operation key e s = (record { below = refl; drawn = refl }, ⊑_refl (data_of s))

    load_value :
        {A : Type 0} (decode : Json → Result A) (key : String) (v : Value) (s s1 : S d)
        → Quiet s s1
        → data_of s key ≡ some v
        → Loads decode key s (loaded d decode key (ok v) s1)
    load_value decode key v s s1 quiet there = elim (Result-cases (unmarshal decode v)) [
      | inl (a, e) ↦ rw (e, loaded) (quiet, inr (v, a, there, e, refl))
      | inr (x, e) ↦
          rw (e, loaded) (Quiet-trans quiet (warn-Quiet "decode" (some key) x s1), inl refl)
    ]

    pub load-Loads :
        {A : Type 0} (decode : Json → Result A) (key : String) (s : S d)
        → Loads decode key s (load d decode key s)
    unfolding load is
    load-Loads decode key s =
        let (quiet, outcome) = call-get key s in
        elim outcome [
          | inl (v, there, e) ↦
              rw (e, load) (load_value decode key v s (call d (get key) s).1 quiet there)
          | inr e ↦ rw (e, load) (quiet, inl refl)
        ]

    -- The generation that a list reads: one that is held, or the token that was drawn for it.
    pub generation_read :
        (token : String) (s : S d)
        → let c = eval list_generation_script list_gen_key token (generation_ttl_ms d) in
          let s1 = (call d c s).1 in
          ((g : Value) × ((call d c s).0 ≡ ok (value g))
            × (data_of s list_gen_key ≡ some g)
            × Quiet s s1)
          ⊎ (((call d c s).0 ≡ ok (value (text token))) × Puts list_gen_key (text token) s s1)
    generation_read token s =
        let c = eval list_generation_script list_gen_key token (generation_ttl_ms d) in
        let (r, e, ran) = Answered-by c s in
        elim (Ran-generation ran) [
          | inl (g, same, there, kept) ↦ inl (g, e ∙ ap ok same, there, (call-Aside c s, kept))
          | inr (same, put) ↦ inr (e ∙ ap ok same, (call-Aside c s, put))
        ]

    pub set_nx-free :
        (k : String) (v : Value) (ttl : ℤ) (s : S d)
        → IsFree k (data_of s)
        → ((call d (set_nx k v ttl) s).0 ≡ ok (integer 1))
          × Puts k v s (call d (set_nx k v ttl) s).1
    set_nx-free k v ttl s free =
        let (r, e, ran) = Answered-by (set_nx k v ttl) s in
        let (one, put) = Ran-set_nx ran free in
        (e ∙ ap ok one, (call-Aside (set_nx k v ttl) s, put))

    -- The release of a lock that is one's own, or gone.
    pub release-Drops :
        (k token : String) (ms : ℤ) (operation : String) (key : Option String) (s : S d)
        → ((w : Value) → data_of s k ≡ some w → w ≡ text token)
        → let (r, s1) = call d (eval release_count_lock_script k token ms) s in
          Drops k s (warn_failed d operation key r s1)
    release-Drops k token ms operation key s own =
        let c = eval release_count_lock_script k token ms in
        let (r, e, ran) = Answered-by c s in
        let (r', s1) = call d c s in
        let (aside, kept) = warn_failed-Aside operation key r' s1 in
        let (left, free) = Ran-release ran own in
        (
          (Aside-trans (call-Aside c s) aside, ⊑_trans kept left),
          λ w there. free w (kept k w there),
        )
