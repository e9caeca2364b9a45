-- ===== src/Cache.antt =====
-- The sharded in-memory cache: parser/internal/inmemory_cache (model.go, cache.go, cleanup.go).
-- A shard's map is an association list; the clock is an argument; `none` is a run-time panic, and
-- the inner option of `get_item` is the Boolean that GetItem returns beside its value.
pub mod Laws
pub mod Reads
pub mod History
pub mod Cleaner
pub mod Items
mod Tests
use Prim.Native.Nat.{bit_xor}
use text.Mathlib.Text.{◌==◌ as str_eq}
use job_parser.Base.{
  ℕ, ◌+◌, ◌*◌, ◌%◌, ◌^◌, String, Bool, false, not, Option, none, some, List, [], ◌∷◌, map, ltb,
  ◌==◌, if◌then◌else◌, get_elem?, set, replicate, keep,
}
use job_parser.Base.Panic.{◌>>=◌}
use job_parser.Base.Text.{bytes}
use job_parser.Base.Dict.{Dict, lookup, insert}

pub record CashItem {ℓ} (V : Type ℓ) : Type ℓ where
  pub value : V
  pub exp_time : ℕ

abbrev pub Shard {ℓ} : Type ℓ → Type ℓ
Shard V = Dict (CashItem V)

pub record InmemoryShardedCache {ℓ} (V : Type ℓ) : Type ℓ where
  pub shards : List (Shard V)
  pub num_shards : ℕ

-- `hash/fnv`, 32-bit FNV-1a.
fnv_from : ℕ → List ℕ → ℕ
fnv_from h [] = h
fnv_from h (b ∷ bs) = fnv_from (bit_xor h b * 16777619 % 2 ^ 32) bs

unfoldable pub sum32 : String → ℕ
unfolding fnv_from bytes
sum32 key = fnv_from 2166136261 (bytes key)

module _ {ℓ} {V : Type ℓ} where
  unfoldable pub new_shards : ℕ → InmemoryShardedCache V
  new_shards n = record { shards = replicate n []; num_shards = n }

  -- NewInmemoryShardedCache. Its goroutine cleanUp makes a ticker, which panics for an interval that is
  -- not positive.
  unfoldable pub new_inmemory_sharded_cache :
      (num_shards clean_up_interval : ℕ) → Option (InmemoryShardedCache V)
  unfolding new_shards
  new_inmemory_sharded_cache num_shards clean_up_interval =
      if clean_up_interval == 0 then none else some (new_shards num_shards)

  -- `int(hashf.Sum32()) % c.numShards`: a division by zero panics.
  shard_index : InmemoryShardedCache V → String → Option ℕ
  shard_index c key = if c.num_shards == 0 then none else some (sum32 key % c.num_shards)

  unfoldable pub get_shard : InmemoryShardedCache V → String → Option (Shard V)
  unfolding shard_index
  get_shard c key = do i ← shard_index c key; get_elem? c.shards i

  -- A missing key and an item past its expiry are both `nil, false`.
  abbrev pub read : ℕ → Option (CashItem V) → Option V
  read now none = none
  read now (some item) = if ltb item.exp_time now then none else some item.value

  unfoldable pub get_item : String → ℕ → InmemoryShardedCache V → Option (Option V)
  unfolding get_shard
  get_item key now c = do shard ← get_shard c key; some (read now (lookup key shard))

  unfoldable pub add_item_with_ttl :
      String → V → ℕ → ℕ → InmemoryShardedCache V → Option (InmemoryShardedCache V)
  unfolding get_shard
  add_item_with_ttl key value ttl now c = do
    i ← shard_index c key
    shard ← get_elem? c.shards i
    some (record c {
      shards = set c.shards i (insert key (record { value = value; exp_time = now + ttl }) shard);
    })

  -- The loop variable hides the argument: the test compares each key with itself.
  unfoldable pub delete_item : String → InmemoryShardedCache V → InmemoryShardedCache V
  delete_item key c = record c { shards = map (keep (λ (k, item). not (str_eq k k))) c.shards }

  unfoldable pub clean_up_expired : ℕ → InmemoryShardedCache V → InmemoryShardedCache V
  clean_up_expired start c = record c {
    shards = map (keep (λ (k, item). not (ltb item.exp_time start))) c.shards;
  }

-- What can happen to the cache: a call of AddItemWithTTL or DeleteItem, the ticker of `cleanUp`, and
-- a message on `stopChan`.
pub data Event {ℓ} (V : Type ℓ) : Type ℓ where
  add : String → V → (ttl now : ℕ) → Event V
  delete : String → Event V
  tick : ℕ → Event V
  stop : Event V

-- The cache and whether the goroutine `cleanUp` still waits in its `select`, which it does once.
pub record Running {ℓ} (V : Type ℓ) : Type ℓ where
  pub cache : InmemoryShardedCache V
  pub waiting : Bool

module _ {ℓ} {V : Type ℓ} where
  unfoldable pub clean_up : ℕ → Running V → Running V
  unfolding clean_up_expired
  clean_up now r =
      if r.waiting then record { cache = clean_up_expired now r.cache; waiting = false } else r

  unfoldable pub step : Event V → Running V → Option (Running V)
  unfolding add_item_with_ttl delete_item clean_up
  step (add key value ttl now) r = do
    c ← add_item_with_ttl key value ttl now r.cache
    some (record r { cache = c })
  step (delete key) r = some (record r { cache = delete_item key r.cache })
  step (tick now) r = some (clean_up now r)
  step stop r = some (record r { waiting = false })

  unfoldable pub run : List (Event V) → Running V → Option (Running V)
  unfolding step
  run [] r = some r
  run (e ∷ es) r = do r' ← step e r; run es r'
