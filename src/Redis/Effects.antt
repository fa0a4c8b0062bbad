-- ===== src/Redis/Effects.antt =====
-- What each command that was answered has done to the data set, and its reply.
use graph_code_challenge.Redis.Laws.{⊑_trans, ◌⊑◌, Ran}
use graph_code_challenge.Prelude.{
  subst, ap, ◌∙◌, Option, refl, none, eq_iff, sym, ◌==◌, Option-cases, ◌⊎◌, arith, ℤ, Bool-cases,
  ◌≡◌, ◌≢◌, String, inr, inl, some,
}
use graph_code_challenge.Redis.{
  held, Command, release_count_lock, list_generation, apply, get, set, set_nx, del, eval, Value,
  text, Reply, nothing, value, integer, Dataset, put, drop_key, release_count_lock_script,
  list_generation_script,
}

-- The data set that `after` is holds what `before` does, and at `k` perhaps `v`; it may have lost keys.
abbrev pub HasPut : String → Value → Dataset → Dataset → Type 0
HasPut k v before after =
    (j : String) (w : Value)
    → after j ≡ some w
    → ((j ≡ k) × (w ≡ v)) ⊎ ((j ≢ k) × (before j ≡ some w))

abbrev pub IsFree : String → Dataset → Type 0
IsFree k ds = (w : Value) → ds k ≢ some w

put-HasPut : (ds : Dataset) (k : String) (v : Value) → HasPut k v ds (put ds k v)
put-HasPut ds k v j w e = elim (Bool-cases (k == j)) [
  | inl same ↦ inl (sym ((eq_iff k j).0 same), ground (arith, e))
  | inr other ↦ inr (λ same. ground (arith, eq_iff k j), ground (arith, e))
]

drop_key-IsFree : (ds : Dataset) (k : String) → IsFree k (drop_key ds k)
drop_key-IsFree ds k w e = ground (arith, e, eq_iff k k)

drop_key_left : (ds : Dataset) (k : String) → drop_key ds k ⊑ ds
drop_key_left ds k j w e = ground (arith, e)

HasPut-left :
    {k : String} {v : Value} {before at after whole : Dataset}
    → at ⊑ before
    → after ⊑ whole
    → HasPut k v at whole
    → HasPut k v before after
HasPut-left lost gone h j w e = elim (h j w (gone j w e)) [
  | inl new ↦ inl new
  | inr (off, old) ↦ inr (off, lost j w old)
]

-- The command did what it does to the data set that was left.
Ran-apply :
    {c : Command} {before after whole : Dataset} {r reply : Reply} (ran : Ran c before r after)
    → apply c ran.at ≡ (reply, whole)
    → (r ≡ reply) × (after ⊑ whole)
Ran-apply {after = after} ran e =
    (sym ran.reply ∙ ap (λ p. p.0) e, subst (λ p. after ⊑ p.1) e ran.result)

apply-get :
    (k : String) (ds : Dataset) {o : Option Value} → ds k ≡ o → apply (get k) ds ≡ (held o, ds)
unfolding apply
apply-get k ds e = rw e refl

pub Ran-get :
    {k : String} {before after : Dataset} {r : Reply}
    → Ran (get k) before r after
    → (after ⊑ before) × (((v : Value) × (before k ≡ some v) × (r ≡ value v)) ⊎ (r ≡ nothing))
Ran-get {k} ran =
    let (_, kept) = Ran-apply ran (apply-get k ran.at refl) in
    (
      ⊑_trans kept ran.left,
      elim (Option-cases (ran.at k)) [
        | inl missing ↦ inr (Ran-apply ran (apply-get k ran.at missing)).0
        | inr (v, there) ↦ inl (v, ran.left k v there, (Ran-apply ran (apply-get k ran.at there)).0)
      ],
    )

pub Ran-set :
    {k : String} {v : Value} {ttl : ℤ} {before after : Dataset} {r : Reply}
    → Ran (set k v ttl) before r after
    → HasPut k v before after
unfolding apply
Ran-set {k} {v} ran = HasPut-left ran.left ran.result (put-HasPut ran.at k v)

del_none : (k : String) (ds : Dataset) → ds k ≡ none → apply (del k) ds ≡ (integer 0, ds)
unfolding apply
del_none k ds e = rw (e, apply) refl

del_some :
    (k : String) (ds : Dataset) {v : Value}
    → ds k ≡ some v
    → apply (del k) ds ≡ (integer 1, drop_key ds k)
unfolding apply
del_some k ds e = rw (e, apply) refl

no_longer : {k : String} {at after : Dataset} → at k ≡ none → after ⊑ at → IsFree k after
no_longer {k} missing kept w there = let both = kept k w there in cc

pub Ran-del :
    {k : String} {before after : Dataset} {r : Reply}
    → Ran (del k) before r after
    → (after ⊑ before) × IsFree k after
Ran-del {k} ran = elim (Option-cases (ran.at k)) [
  | inl missing ↦
      let (_, kept) = Ran-apply ran (del_none k ran.at missing) in
      (⊑_trans kept ran.left, no_longer missing kept)
  | inr (v, there) ↦
      let (_, kept) = Ran-apply ran (del_some k ran.at there) in
      (
        ⊑_trans kept (⊑_trans (drop_key_left ran.at k) ran.left),
        λ w e. drop_key-IsFree ran.at k w (kept k w e),
      )
]

apply_set_nx :
    (k : String) (v : Value) (ttl : ℤ) (ds : Dataset)
    → ds k ≡ none
    → apply (set_nx k v ttl) ds ≡ (integer 1, put ds k v)
unfolding apply
apply_set_nx k v ttl ds e = rw (e, apply) refl

still_free : {k : String} {before at : Dataset} → at ⊑ before → IsFree k before → at k ≡ none
still_free {k} {at = at} lost free = elim (Option-cases (at k)) [
  | inl missing ↦ missing
  | inr (v, there) ↦ absurd (free v (lost k v there))
]

pub Ran-set_nx :
    {k : String} {v : Value} {ttl : ℤ} {before after : Dataset} {r : Reply}
    → Ran (set_nx k v ttl) before r after
    → IsFree k before
    → (r ≡ integer 1) × HasPut k v before after
Ran-set_nx {k} {v} {ttl} ran free =
    let (one, kept) = Ran-apply ran (apply_set_nx k v ttl ran.at (still_free ran.left free)) in
    (one, HasPut-left ran.left kept (put-HasPut ran.at k v))

release_own :
    (k token : String) (ds : Dataset)
    → ds k ≡ some (text token)
    → release_count_lock k token ds ≡ (integer 1, drop_key ds k)
unfolding release_count_lock
release_own k token ds e = rw (e, release_count_lock, (eq_iff token token).1 refl) refl

release_none :
    (k token : String) (ds : Dataset)
    → ds k ≡ none
    → release_count_lock k token ds ≡ (integer 0, ds)
unfolding release_count_lock
release_none k token ds e = rw (e, release_count_lock) refl

pub Ran-release :
    {k token : String} {ms : ℤ} {before after : Dataset} {r : Reply}
    → Ran (eval release_count_lock_script k token ms) before r after
    → ((w : Value) → before k ≡ some w → w ≡ text token)
    → (after ⊑ before) × IsFree k after
unfolding apply
Ran-release {k} {token} ran own = elim (Option-cases (ran.at k)) [
  | inl missing ↦
      let (_, kept) = Ran-apply ran (release_none k token ran.at missing) in
      (⊑_trans kept ran.left, no_longer missing kept)
  | inr (v, there) ↦
      let mine = there ∙ ap some (own v (ran.left k v there)) in
      let (_, kept) = Ran-apply ran (release_own k token ran.at mine) in
      (
        ⊑_trans kept (⊑_trans (drop_key_left ran.at k) ran.left),
        λ w e. drop_key-IsFree ran.at k w (kept k w e),
      )
]

generation_there :
    (k token : String) {g : Value} (ds : Dataset)
    → ds k ≡ some g
    → list_generation k token ds ≡ (value g, ds)
unfolding list_generation
generation_there k token ds e = rw (e, list_generation) refl

generation_none :
    (k token : String) (ds : Dataset)
    → ds k ≡ none
    → list_generation k token ds ≡ (value (text token), put ds k (text token))
unfolding list_generation
generation_none k token ds e = rw (e, list_generation) refl

pub Ran-generation :
    {k token : String} {ms : ℤ} {before after : Dataset} {r : Reply}
    → Ran (eval list_generation_script k token ms) before r after
    → ((g : Value) × (r ≡ value g) × (before k ≡ some g) × (after ⊑ before))
      ⊎ ((r ≡ value (text token)) × HasPut k (text token) before after)
unfolding apply
Ran-generation {k} {token} ran = elim (Option-cases (ran.at k)) [
  | inl missing ↦
      let (same, kept) = Ran-apply ran (generation_none k token ran.at missing) in
      inr (same, HasPut-left ran.left kept (put-HasPut ran.at k (text token)))
  | inr (g, there) ↦
      let (same, kept) = Ran-apply ran (generation_there k token ran.at there) in
      inl (g, same, ran.left k g there, ⊑_trans kept ran.left)
]
