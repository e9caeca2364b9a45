-- ===== src/Cache/Cleaner.antt =====
-- The goroutine `cleanUp` removes expired entries once, and never again.
use job_parser.Base.{
  ℕ, zero, suc, ◌+◌, ◌≤◌, String, ◌≡◌, refl, sym, ap, ◌∙◌, false, some, List, [], ◌∷◌, arith,
  length, get_elem?, set, All,
}
use mathlib.Core.Option.{some-injective}
use job_parser.Base.Dict.{insert}
use job_parser.Cache.{
  CashItem, Shard, InmemoryShardedCache, add_item_with_ttl, Event, add, delete, tick, stop,
  clean_up, Running, step, run,
}
use job_parser.Cache.Laws.{IsValid, shard_found, add-eq, add-IsValid}
use job_parser.Cache.History.{clean_up-IsValid}

module _ {ℓ} {V : Type ℓ} where
  -- The number of entries that a cache holds, expired or not.
  abbrev pub size : List (Shard V) → ℕ
  size [] = 0
  size (s ∷ ss) = length s + size ss

  length-insert-le : (k : String) (v : CashItem V) (s : Shard V) → length s ≤ length (insert k v s)
  unfolding insert
  length-insert-le k v [] = omega arith
  length-insert-le k v ((j, w) ∷ s) = ground (arith, length-insert-le k v s)

  size-set-le :
      (ss : List (Shard V)) (i : ℕ) (s t : Shard V)
      → get_elem? ss i ≡ some s
      → length s ≤ length t
      → size ss ≤ size (set ss i t)
  size-set-le [] i s t e h = omega arith
  size-set-le (u ∷ ss) zero s t e h = omega (arith, ap length (some-injective _ _ e))
  size-set-le (u ∷ ss) (suc i) s t e h = omega (arith, size-set-le ss i s t e h)

  add-size :
      (c d : InmemoryShardedCache V) (key : String) (value : V) (ttl now : ℕ)
      → IsValid c
      → add_item_with_ttl key value ttl now c ≡ some d
      → size c.shards ≤ size d.shards
  add-size c d key value ttl now v h =
      let (s, e) = shard_found c key v in
      rw (some-injective _ _ (sym h ∙ add-eq c key value ttl now v e))
        (size-set-le c.shards _ s _ e (length-insert-le key _ s))

  -- Not a call of DeleteItem.
  abbrev pub Keeps : Event V → Type 0
  Keeps (add k value ttl now) = Unit
  Keeps (delete k) = ⊥
  Keeps (tick now) = Unit
  Keeps stop = Unit

  step_idle :
      (e : Event V) (r : Running V)
      → IsValid r.cache
      → r.waiting ≡ false
      → Keeps e
      → (r' : Running V) × (step e r ≡ some r')
        × IsValid r'.cache
        × (r'.waiting ≡ false)
        × (size r.cache.shards ≤ size r'.cache.shards)
  unfolding step clean_up
  step_idle (add k value ttl now) r v w h =
      let (d, e, v') = add-IsValid r.cache k value ttl now v in
      (record r { cache = d }, ground (arith, e), v', w, add-size r.cache d k value ttl now v e)
  step_idle (delete k) r v w h = absurd h
  step_idle (tick now) r v w k = (r, ground arith, v, w, omega arith)
  step_idle stop r v w k = (record r { waiting = false }, refl, v, refl, omega arith)

  clean_up-done : (now : ℕ) (r : Running V) → (clean_up now r).waiting ≡ false
  unfolding clean_up
  clean_up-done now r = ground arith

  run_idle :
      (es : List (Event V)) (r : Running V)
      → IsValid r.cache
      → r.waiting ≡ false
      → All Keeps es
      → (r' : Running V) × (run es r ≡ some r') × (size r.cache.shards ≤ size r'.cache.shards)
  unfolding run
  run_idle [] r v w h = (r, refl, omega arith)
  run_idle (e ∷ es) r v w (k, ks) =
      let (r', stepped, v', w', le) = step_idle e r v w k in
      let (r'', ran, le') = run_idle es r' v' w' ks in (r'', rw stepped ran, omega arith)

  -- After the first tick of the cleaner the number of entries held never falls again, however many
  -- more ticks there are and whatever has expired, as long as DeleteItem is not called. The cache is
  -- valid.
  pub never_shrinks :
      (es : List (Event V)) (r : Running V) (now : ℕ)
      → IsValid r.cache
      → All Keeps es
      → (r' : Running V) × (run (tick now ∷ es) r ≡ some r')
        × (size (clean_up now r).cache.shards ≤ size r'.cache.shards)
  unfolding run
  never_shrinks es r now v k =
      let (r', ran, le) =
        run_idle es (clean_up now r) (clean_up-IsValid now r v) (clean_up-done now r) k in
      (r', ran, le)
