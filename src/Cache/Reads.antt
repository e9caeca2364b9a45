-- ===== src/Cache/Reads.antt =====
-- What each operation of the cache does to later reads.
use job_parser.Base.{
  ℕ, zero, suc, ◌+◌, ◌%◌, ◌≤◌, ◌<◌, String, ◌≡◌, sym, ap, ◌∙◌, ◌≢◌, Bool, ℕ_discrete, eq_refl, none,
  some, List, [], ◌∷◌, map, arith, ltb, if◌then◌else◌, eq_iff, length, get_elem?, set, keep,
  get_elem?-set_self, get_elem?-set_ne, not,
}
use text.Mathlib.Text.{◌==◌ as str_eq}
use mathlib.Core.Option.{some-injective}
use native.Mathlib.Nat.{mod-lt}
use job_parser.Base.Dict.{lookup, insert, lookup-insert, lookup-keep, found_if}
use job_parser.Cache.Laws.{IsValid, All-get, shard_found, get_item-eq, add-eq}
use job_parser.Cache.{
  CashItem, Shard, InmemoryShardedCache, sum32, read, get_item, add_item_with_ttl, delete_item,
  clean_up_expired,
}

module _ {ℓ} {V : Type ℓ} where
  add_here :
      (c : InmemoryShardedCache V) (key other : String) (item : CashItem V) (later : ℕ)
      {s : Shard V}
      → IsValid c
      → get_elem? c.shards (sum32 key % c.num_shards) ≡ some s
      → sum32 key % c.num_shards ≡ sum32 other % c.num_shards
      → let d = record c { shards = set c.shards (sum32 key % c.num_shards) (insert key item s) } in
        get_item other later d
        ≡ (if str_eq key other then some (read later (some item)) else get_item other later c)
  add_here c key other item later {s} v e same =
      let d = record c { shards = set c.shards (sum32 key % c.num_shards) (insert key item s) } in
      let bound : sum32 key % c.num_shards < length c.shards =
        omega (arith, v.sized, mod-lt (sum32 key) v.positive) in
      let written =
        get_elem?-set_self c.shards (sum32 key % c.num_shards) (insert key item s) bound in
      ground (
        arith,
        get_item-eq d other later {s = insert key item s} v.positive (rw (← same) written),
        get_item-eq c other later {s = s} v.positive (rw (← same) e),
        lookup-insert key other item s,
      )

  add_there :
      (c : InmemoryShardedCache V) (key other : String) (s : Shard V) (later : ℕ)
      → IsValid c
      → sum32 key % c.num_shards ≢ sum32 other % c.num_shards
      → let d = record c { shards = set c.shards (sum32 key % c.num_shards) s } in
        get_item other later d ≡ get_item other later c
  add_there c key other s later v n =
      let d = record c { shards = set c.shards (sum32 key % c.num_shards) s } in
      let (t, f) = shard_found c other v in
      let kept = get_elem?-set_ne c.shards _ (sum32 other % c.num_shards) s n in
      get_item-eq d other later v.positive (kept ∙ f) ∙ sym (get_item-eq c other later v.positive f)

  -- After AddItemWithTTL a read of the written key gives the written value, until a time past its
  -- expiry, and every other key reads as before. The cache is valid.
  pub get_item-add :
      (c d : InmemoryShardedCache V) (key other : String) (value : V) (ttl now later : ℕ)
      → IsValid c
      → add_item_with_ttl key value ttl now c ≡ some d
      → get_item other later d ≡ (
          if str_eq key other
          then some (if ltb (now + ttl) later then none else some value)
          else get_item other later c)
  get_item-add c d key other value ttl now later v h =
      let (s, e) = shard_found c key v in
      let same = some-injective _ _ (sym h ∙ add-eq c key value ttl now v e) in
      rw same (elim (ℕ_discrete (sum32 key % c.num_shards) (sum32 other % c.num_shards)) [
        | yes p ↦ add_here c key other _ later v e p
        | no n ↦ ground (
          arith,
          eq_iff key other,
          add_there c key other (insert key (record { value = value; exp_time = now + ttl }) s)
              later v n,
        )
      ])

  get_elem?-map :
      (f : Shard V → Shard V) (ss : List (Shard V)) (i : ℕ) {s : Shard V}
      → get_elem? ss i ≡ some s
      → get_elem? (map f ss) i ≡ some (f s)
  get_elem?-map f [] i e = cc e
  get_elem?-map f (t ∷ ss) zero e = ap some (ap f (some-injective _ _ e))
  get_elem?-map f (t ∷ ss) (suc i) e = get_elem?-map f ss i e

  -- A read of a cache all of whose shards went through `keep`.
  pub get_item-map-keep :
      (c : InmemoryShardedCache V) (p : String × CashItem V → Bool) (key : String) (now : ℕ)
      {s : Shard V}
      → IsValid c
      → get_elem? c.shards (sum32 key % c.num_shards) ≡ some s
      → get_item key now (record c { shards = map (keep p) c.shards })
        ≡ some (read now (found_if p key (lookup key s)))
  get_item-map-keep c p key now {s} v e =
      rw (← lookup-keep key p s (All-get _ s c.shards e v.distinct)) (
        get_item-eq (record c { shards = map (keep p) c.shards }) key now v.positive
          (get_elem?-map (keep p) c.shards _ e))

  -- Every read after DeleteItem finds nothing, whatever key it was given: every entry of every shard
  -- is removed. The cache is valid.
  pub get_item-delete_item :
      (c : InmemoryShardedCache V) (key other : String) (now : ℕ)
      → IsValid c
      → get_item other now (delete_item key c) ≡ some none
  unfolding delete_item
  get_item-delete_item c key other now v =
      let (s, e) = shard_found c other v in
      ground
        (arith, eq_refl other, get_item-map-keep c (λ (k, item). not (str_eq k k)) other now v e)

  -- cleanUpExpired changes no read at its own time or later. The cache is valid.
  pub get_item-clean_up_expired :
      (c : InmemoryShardedCache V) (key : String) (start now : ℕ)
      → IsValid c
      → start ≤ now
      → get_item key now (clean_up_expired start c) ≡ get_item key now c
  unfolding clean_up_expired
  get_item-clean_up_expired c key start now v h =
      let (s, e) = shard_found c key v in
      ground (
        arith,
        get_item-map-keep c (λ (k, item). not (ltb item.exp_time start)) key now v e,
        get_item-eq c key now v.positive e,
      )
