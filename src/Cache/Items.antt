-- ===== src/Cache/Items.antt =====
-- A property of every entry of the cache, by its key: what the operations of cache.go and cleanup.go
-- ask of it, and that a read gives a value that has it.
use text.Mathlib.Text.{◌==◌ as str_eq}
use mathlib.Core.Option.{some-injective}
use mathlib.Core.Path.{subst}
use job_parser.Base.{
  ℕ, zero, suc, ◌+◌, ◌%◌, ◌≡◌, String, Bool, Option, none, some, List, [], ◌∷◌, map, arith,
  get_elem?, set, replicate, keep, All, Bool-cases, sym, ◌∙◌, inl, inr, eq_iff,
}
use job_parser.Base.Dict.{lookup, insert}
use job_parser.Cache.{
  CashItem, Shard, InmemoryShardedCache, sum32, new_shards, read, get_item, add_item_with_ttl,
  delete_item, clean_up_expired,
}
use job_parser.Cache.Laws.{IsValid, shard_found, get_item-eq, add-eq}

module _ {ℓ} {V : Type ℓ} (P : String → V → Type 0) where
  abbrev pub InShard : Shard V → Type 0
  InShard s = All (λ (e : String × CashItem V). P e.0 e.1.value) s

  abbrev pub Holds : List (Shard V) → Type 0
  Holds ss = All InShard ss

  -- What a read may give: no panic, and a value with the property, if any.
  abbrev pub Gives : String → Option (Option V) → Type 0
  Gives key none = ⊥
  Gives key (some none) = Unit
  Gives key (some (some v)) = P key v

  InShard-insert :
      (key : String) (item : CashItem V) (s : Shard V)
      → P key item.value
      → InShard s
      → InShard (insert key item s)
  unfolding insert
  InShard-insert key item [] p h = (p, tt)
  InShard-insert key item ((j, w) ∷ s) p (q, h) = ground (arith, InShard-insert key item s p h)

  InShard-keep : (p : String × CashItem V → Bool) (s : Shard V) → InShard s → InShard (keep p s)
  InShard-keep p [] h = tt
  InShard-keep p (e ∷ s) (q, h) = ground (arith, InShard-keep p s h)

  Holds-keep :
      (p : String × CashItem V → Bool) (ss : List (Shard V)) → Holds ss → Holds (map (keep p) ss)
  Holds-keep p [] h = tt
  Holds-keep p (s ∷ ss) (q, h) = (InShard-keep p s q, Holds-keep p ss h)

  Holds-set :
      (i : ℕ) (s : Shard V) (ss : List (Shard V)) → InShard s → Holds ss → Holds (set ss i s)
  Holds-set i s [] q h = tt
  Holds-set zero s (t ∷ ss) q (_, h) = (q, h)
  Holds-set (suc i) s (t ∷ ss) q (k, h) = (k, Holds-set i s ss q h)

  Holds-get :
      (i : ℕ) (s : Shard V) (ss : List (Shard V)) → get_elem? ss i ≡ some s → Holds ss → InShard s
  Holds-get i s [] e h = absurd (cc e)
  Holds-get zero s (t ∷ ss) e (q, h) = subst InShard (some-injective _ _ e) q
  Holds-get (suc i) s (t ∷ ss) e (q, h) = Holds-get i s ss e h

  Holds-replicate : (n : ℕ) → Holds (replicate n [])
  Holds-replicate zero = tt
  Holds-replicate (suc n) = (tt, Holds-replicate n)

  pub new-Holds : (n : ℕ) → Holds (new_shards n).shards
  unfolding new_shards
  new-Holds n = Holds-replicate n

  pub add-Holds :
      (c d : InmemoryShardedCache V) (key : String) (value : V) (ttl now : ℕ)
      → IsValid c
      → add_item_with_ttl key value ttl now c ≡ some d
      → P key value
      → Holds c.shards
      → Holds d.shards
  add-Holds c d key value ttl now v e p h =
      let (s, f) = shard_found c key v in
      let found =
        InShard-insert key (record { value = value; exp_time = now + ttl }) s p
          (Holds-get _ s c.shards f h) in
      let stored = some-injective _ _ (sym (add-eq c key value ttl now v f) ∙ e) in
      subst (λ (x : InmemoryShardedCache V). Holds x.shards) stored
        (Holds-set (sum32 key % c.num_shards) _ c.shards found h)

  pub delete-Holds :
      (key : String) (c : InmemoryShardedCache V)
      → Holds c.shards
      → Holds (delete_item key c).shards
  unfolding delete_item
  delete-Holds key c h = Holds-keep _ c.shards h

  pub clean-Holds :
      (start : ℕ) (c : InmemoryShardedCache V)
      → Holds c.shards
      → Holds (clean_up_expired start c).shards
  unfolding clean_up_expired
  clean-Holds start c h = Holds-keep _ c.shards h

  read-Gives :
      (key : String) (now : ℕ) (item : CashItem V)
      → P key item.value
      → Gives key (some (read now (some item)))
  read-Gives key now item p = ground (arith, p)

  lookup-InShard :
      (key : String) (now : ℕ) (s : Shard V)
      → InShard s
      → Gives key (some (read now (lookup key s)))
  unfolding lookup
  lookup-InShard key now [] h = tt
  lookup-InShard key now ((j, w) ∷ s) (q, h) = elim (Bool-cases (str_eq j key)) [
    | inl y ↦ rw y (read-Gives key now w (subst (λ k. P k w.value) ((eq_iff j key).0 y) q))
    | inr n ↦ rw n (lookup-InShard key now s h)
  ]

  -- A read of a valid cache gives a value with the property, if any.
  pub get_item-Gives :
      (c : InmemoryShardedCache V) (key : String) (now : ℕ)
      → IsValid c
      → Holds c.shards
      → Gives key (get_item key now c)
  get_item-Gives c key now v h =
      let (s, f) = shard_found c key v in
      rw (get_item-eq c key now v.positive f)
        (lookup-InShard key now s (Holds-get _ s c.shards f h))
