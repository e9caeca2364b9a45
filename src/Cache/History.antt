-- ===== src/Cache/History.antt =====
-- The cache against the history of its events: the abstract view is the last write of each key.
use text.Mathlib.Text.{◌==◌ as str_eq}
use mathlib.Core.Option.{some-injective}
use job_parser.Base.{
  ℕ, ◌+◌, ◌≤◌, ◌<◌, String, ◌≡◌, refl, sym, ◌∙◌, true, false, Option, none, some, List, [], ◌∷◌,
  arith, get_elem?, replicate, zero, suc, ◌%◌, if◌then◌else◌, All,
}
use job_parser.Base.Dict.{lookup}
use job_parser.Cache.{
  Shard, sum32, CashItem, new_shards, read, get_item, delete_item, Event, add, delete, tick, stop,
  clean_up, Running, step, run,
}
use job_parser.Cache.Laws.{
  IsValid, new-IsValid, add-IsValid, delete_item-IsValid, clean_up_expired-IsValid, shard_found,
  get_item-eq,
}
use job_parser.Cache.Reads.{get_item-add, get_item-delete_item, get_item-clean_up_expired}

module _ {ℓ} {V : Type ℓ} where
  -- What is on record for a key after one more event. A deletion of any key forgets it.
  abbrev pub record_event : String → Event V → Option (CashItem V) → Option (CashItem V)
  record_event key (add k value ttl now) last =
      if str_eq k key then some (record { value = value; exp_time = now + ttl }) else last
  record_event key (delete k) last = none
  record_event key (tick now) last = last
  record_event key stop last = last

  -- The last write of a key that no deletion follows, given what was on record before the events.
  abbrev pub last_write : String → List (Event V) → Option (CashItem V) → Option (CashItem V)
  last_write key [] last = last
  last_write key (e ∷ es) last = last_write key es (record_event key e last)

  -- No tick of the cleaner comes later than `now`.
  abbrev pub IsBefore : ℕ → Event V → Type 0
  IsBefore now (add k value ttl t) = Unit
  IsBefore now (delete k) = Unit
  IsBefore now (tick t) = t ≤ now
  IsBefore now stop = Unit

  pub clean_up-IsValid : (t : ℕ) (r : Running V) → IsValid r.cache → IsValid (clean_up t r).cache
  unfolding clean_up
  clean_up-IsValid t r v = ground (arith, clean_up_expired-IsValid t r.cache v)

  get_item-clean_up :
      (t : ℕ) (r : Running V) (key : String) (now : ℕ)
      → IsValid r.cache
      → t ≤ now
      → get_item key now (clean_up t r).cache ≡ get_item key now r.cache
  unfolding clean_up
  get_item-clean_up t r key now v h =
      ground (arith, get_item-clean_up_expired r.cache key t now v h)

  -- One event on a valid cache does not panic, leaves it valid, and changes a read as the record says.
  pub step_record :
      (e : Event V) (r : Running V) (key : String) (now : ℕ) (last : Option (CashItem V))
      → IsValid r.cache
      → IsBefore now e
      → get_item key now r.cache ≡ some (read now last)
      → (r' : Running V) × (step e r ≡ some r')
        × IsValid r'.cache
        × (get_item key now r'.cache ≡ some (read now (record_event key e last)))
  unfolding step
  step_record (add k value ttl t) r key now last v b h =
      let (d, e, w) = add-IsValid r.cache k value ttl t v in
      (
        record r { cache = d },
        ground (arith, e),
        w,
        ground (arith, get_item-add r.cache d k key value ttl t now v e),
      )
  step_record (delete k) r key now last v b h = (
    record r { cache = delete_item k r.cache },
    refl,
    delete_item-IsValid k r.cache v,
    get_item-delete_item r.cache k key now v,
  )
  step_record (tick t) r key now last v b h =
      (clean_up t r, refl, clean_up-IsValid t r v, get_item-clean_up t r key now v b ∙ h)
  step_record stop r key now last v b h = (record r { waiting = false }, refl, v, h)

  run_record :
      (es : List (Event V)) (r : Running V) (key : String) (now : ℕ) (last : Option (CashItem V))
      → IsValid r.cache
      → All (IsBefore now) es
      → get_item key now r.cache ≡ some (read now last)
      → (r' : Running V) × (run es r ≡ some r')
        × IsValid r'.cache
        × (get_item key now r'.cache ≡ some (read now (last_write key es last)))
  unfolding run
  run_record [] r key now last v b h = (r, refl, v, h)
  run_record (e ∷ es) r key now last v (b, bs) h =
      let (r', stepped, v', h') = step_record e r key now last v b h in
      let (r'', ran, v'', h'') = run_record es r' key now (record_event key e last) v' bs h' in
      (r'', rw stepped ran, v'', h'')

  get_elem?-replicate : (n i : ℕ) {s : Shard V} → get_elem? (replicate n []) i ≡ some s → s ≡ []
  get_elem?-replicate zero i e = cc e
  get_elem?-replicate (suc n) zero e = sym (some-injective _ _ e)
  get_elem?-replicate (suc n) (suc i) e = get_elem?-replicate n i e

  pub get_item-new :
      (n : ℕ) (key : String) (now : ℕ) → 0 < n → get_item key now (new_shards {V = V} n) ≡ some none
  unfolding new_shards lookup
  get_item-new n key now h =
      let (s, e) = shard_found (new_shards {V = V} n) key (new-IsValid V n h) in
      ground (
        arith,
        get_item-eq (new_shards {V = V} n) key now h e,
        get_elem?-replicate n (sum32 key % n) e,
      )

  -- A new cache with at least one shard, run through any events without a panic, stays valid, and
  -- GetItem then gives the last value written to the key that no deletion (of whatever key) follows,
  -- unless its expiry has passed. The cleaner's ticks come no later than the read.
  pub get_item-run :
      (n : ℕ) (es : List (Event V)) (key : String) (now : ℕ)
      → 0 < n
      → All (IsBefore now) es
      → (r : Running V) × (run es (record { cache = new_shards n; waiting = true }) ≡ some r)
        × IsValid r.cache
        × (get_item key now r.cache ≡ some (read now (last_write key es none)))
  get_item-run n es key now h b =
      run_record es (record { cache = new_shards n; waiting = true }) key now none
        (new-IsValid V n h) b (get_item-new n key now h)
