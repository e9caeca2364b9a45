-- ===== src/Cache/Laws.antt =====
-- The cache's invariant, and that every operation keeps it.
use job_parser.Base.{
  ℕ, zero, suc, ◌+◌, ◌%◌, ◌<◌, String, ◌≡◌, ◌∙◌, Bool, some, List, [], ◌∷◌, map, arith, length,
  get_elem?, set, replicate, keep, All, length-set, length-map, length-replicate, get_elem?-some,
}
use mathlib.Core.Path.{subst}
use mathlib.Core.Option.{some-injective}
use native.Mathlib.Nat.{mod-lt}
use job_parser.Base.Dict.{lookup, insert, IsDistinct, insert-IsDistinct, keep-IsDistinct}
use job_parser.Cache.{
  CashItem, Shard, InmemoryShardedCache, sum32, new_shards, read, get_item, add_item_with_ttl,
  delete_item, clean_up_expired,
}

module _ {ℓ} {V : Type ℓ} where
  -- Every entry of the shards, numbered from `i`, lies where getShard looks for its key.
  abbrev pub Placed : ℕ → ℕ → List (Shard V) → Type 0
  Placed n i [] = Unit
  Placed n i (s ∷ ss) = All (λ (e : String × CashItem V). sum32 e.0 % n ≡ i) s × Placed n (suc i) ss

  pub record IsValid (c : InmemoryShardedCache V) : Type ℓ where
    pub positive : 0 < c.num_shards
    pub sized : length c.shards ≡ c.num_shards
    pub distinct : All IsDistinct c.shards
    pub placed : Placed c.num_shards 0 c.shards

module _ {ℓ} (V : Type ℓ) where
  All-replicate : (n : ℕ) → All (IsDistinct {V = CashItem V}) (replicate n [])
  All-replicate zero = tt
  All-replicate (suc n) = (tt, All-replicate n)

  Placed-replicate : (m i n : ℕ) → Placed {V = V} m i (replicate n [])
  Placed-replicate m i zero = tt
  Placed-replicate m i (suc n) = (tt, Placed-replicate m (suc i) n)

  pub new-IsValid : (n : ℕ) → 0 < n → IsValid {V = V} (new_shards n)
  unfolding new_shards
  new-IsValid n h = record {
    positive = h;
    sized = length-replicate n [];
    distinct = All-replicate n;
    placed = Placed-replicate n 0 n;
  }

module _ {ℓ} {V : Type ℓ} where
  All-set :
      (i : ℕ) (s : Shard V) (ss : List (Shard V))
      → IsDistinct s
      → All IsDistinct ss
      → All IsDistinct (set ss i s)
  All-set i s [] d h = tt
  All-set zero s (t ∷ ss) d (_, h) = (d, h)
  All-set (suc i) s (t ∷ ss) d (k, h) = (k, All-set i s ss d h)

  pub All-get :
      (i : ℕ) (s : Shard V) (ss : List (Shard V))
      → get_elem? ss i ≡ some s
      → All IsDistinct ss
      → IsDistinct s
  All-get i s [] e h = absurd (cc e)
  All-get zero s (t ∷ ss) e (d, h) = subst IsDistinct (some-injective _ _ e) d
  All-get (suc i) s (t ∷ ss) e (d, h) = All-get i s ss e h

  InShard : ℕ → ℕ → Shard V → Type 0
  InShard n i s = All (λ (e : String × CashItem V). sum32 e.0 % n ≡ i) s

  InShard-insert :
      (n i : ℕ) (k : String) (v : CashItem V) (s : Shard V)
      → sum32 k % n ≡ i
      → InShard n i s
      → InShard n i (insert k v s)
  unfolding InShard insert
  InShard-insert n i k v [] e h = (e, tt)
  InShard-insert n i k v ((j, w) ∷ s) e (p, h) = ground (arith, InShard-insert n i k v s e h)

  Placed-set :
      (n i j : ℕ) (k : String) (v : CashItem V) (s : Shard V) (ss : List (Shard V))
      → sum32 k % n ≡ i + j
      → get_elem? ss j ≡ some s
      → Placed n i ss
      → Placed n i (set ss j (insert k v s))
  unfolding InShard
  Placed-set n i j k v s [] e f h = tt
  Placed-set n i zero k v s (t ∷ ss) e f (p, h) =
      (InShard-insert n i k v s (omega arith) (subst (InShard n i) (some-injective _ _ f) p), h)
  Placed-set n i (suc j) k v s (t ∷ ss) e f (p, h) =
      (p, Placed-set n (suc i) j k v s ss (omega arith) f h)

  -- getShard finds a shard.
  pub shard_found :
      (c : InmemoryShardedCache V) (key : String)
      → IsValid c
      → (s : Shard V) × (get_elem? c.shards (sum32 key % c.num_shards) ≡ some s)
  shard_found c key v =
      get_elem?-some c.shards _ (omega (arith, v.sized, mod-lt (sum32 key) v.positive))

  pub get_item-eq :
      (c : InmemoryShardedCache V) (key : String) (now : ℕ) {s : Shard V}
      → 0 < c.num_shards
      → get_elem? c.shards (sum32 key % c.num_shards) ≡ some s
      → get_item key now c ≡ some (read now (lookup key s))
  unfolding get_item
  get_item-eq c key now v e = ground arith

  pub add-eq :
      (c : InmemoryShardedCache V) (key : String) (value : V) (ttl now : ℕ) {s : Shard V}
      → IsValid c
      → get_elem? c.shards (sum32 key % c.num_shards) ≡ some s
      → add_item_with_ttl key value ttl now c
        ≡ some (record c {
          shards =
              set c.shards
                (sum32 key % c.num_shards)
                (insert key (record { value = value; exp_time = now + ttl }) s);
        })
  unfolding add_item_with_ttl
  add-eq c key value ttl now v e = ground (arith, v.positive)

  -- On a valid cache AddItemWithTTL does not panic, and leaves a valid cache.
  pub add-IsValid :
      (c : InmemoryShardedCache V) (key : String) (value : V) (ttl now : ℕ)
      → IsValid c
      → (d : InmemoryShardedCache V) × (add_item_with_ttl key value ttl now c ≡ some d) × IsValid d
  add-IsValid c key value ttl now v =
      let (s, e) = shard_found c key v in
      (
        _,
        add-eq c key value ttl now v e,
        record {
          positive = v.positive;
          sized =
              omega
                (arith, length-set c.shards (sum32 key % c.num_shards) (insert key _ s), v.sized);
          distinct =
              All-set _ _ c.shards (insert-IsDistinct key _ s (All-get _ s c.shards e v.distinct))
                v.distinct;
          placed = Placed-set c.num_shards 0 _ key _ s c.shards (omega arith) e v.placed;
        },
      )

  All-map-keep :
      (p : String × CashItem V → Bool) (ss : List (Shard V))
      → All IsDistinct ss
      → All IsDistinct (map (keep p) ss)
  All-map-keep p [] h = tt
  All-map-keep p (s ∷ ss) (d, h) = (keep-IsDistinct p s d, All-map-keep p ss h)

  InShard-keep :
      (n i : ℕ) (p : String × CashItem V → Bool) (s : Shard V)
      → InShard n i s
      → InShard n i (keep p s)
  unfolding InShard
  InShard-keep n i p [] h = tt
  InShard-keep n i p (e ∷ s) (q, h) = ground (arith, InShard-keep n i p s h)

  Placed-map-keep :
      (n i : ℕ) (p : String × CashItem V → Bool) (ss : List (Shard V))
      → Placed n i ss
      → Placed n i (map (keep p) ss)
  unfolding InShard
  Placed-map-keep n i p [] h = tt
  Placed-map-keep n i p (s ∷ ss) (q, h) = (InShard-keep n i p s q, Placed-map-keep n (suc i) p ss h)

  map-keep-IsValid :
      (p : String × CashItem V → Bool) (c : InmemoryShardedCache V)
      → IsValid c
      → IsValid (record c { shards = map (keep p) c.shards })
  map-keep-IsValid p c v = record {
    positive = v.positive;
    sized = length-map (keep p) c.shards ∙ v.sized;
    distinct = All-map-keep p c.shards v.distinct;
    placed = Placed-map-keep c.num_shards 0 p c.shards v.placed;
  }

  pub delete_item-IsValid :
      (key : String) (c : InmemoryShardedCache V) → IsValid c → IsValid (delete_item key c)
  unfolding delete_item
  delete_item-IsValid key c v = map-keep-IsValid _ c v

  pub clean_up_expired-IsValid :
      (start : ℕ) (c : InmemoryShardedCache V) → IsValid c → IsValid (clean_up_expired start c)
  unfolding clean_up_expired
  clean_up_expired-IsValid start c v = map-keep-IsValid _ c v
