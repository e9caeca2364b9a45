-- ===== src/Cache/Tests.antt =====
-- The cache's theorems at concrete caches, and runs of the code.
use job_parser.Base.{ℕ, ◌≤◌, ◌≡◌, refl, true, none, some, List, [], ◌∷◌, arith}
use job_parser.Cache.{
  InmemoryShardedCache, sum32, new_shards, get_item, add_item_with_ttl, clean_up, Event, add, tick,
  Running, run,
}
use job_parser.Base.Dict.{lookup, insert}
use job_parser.Cache.Laws.{IsValid}
use job_parser.Cache.History.{get_item-run}
use job_parser.Cache.Cleaner.{size, never_shrinks}

cache : Unit {0}
unfolding get_item add_item_with_ttl sum32 run new_shards lookup insert
cache = tt

-- The published FNV-1a hash of "a".
sum32_a : sum32 "a" ≡ 0xe40c292c
unfolding sum32
sum32_a = refl

abbrev empty : InmemoryShardedCache ℕ
unfolding new_shards
empty = new_shards 5

-- The key "a" falls into the first of five shards; its entry expires at 10.
abbrev with_a : InmemoryShardedCache ℕ
with_a = record {
  shards = (("a", record { value = 7; exp_time = 10 }) ∷ []) ∷ [] ∷ [] ∷ [] ∷ [] ∷ [];
  num_shards = 5;
}

with_a-IsValid : IsValid with_a
unfolding sum32
with_a-IsValid = record {
  positive = omega arith;
  sized = refl;
  distinct = omega arith;
  placed = omega arith;
}

reads :
    (get_item "a" 10 with_a ≡ some (some 7))
    × (get_item "a" 11 with_a ≡ some none)
    × (get_item "b" 0 with_a ≡ some none)
unfolding cache
reads = (refl, refl, refl)

-- A cache with no shards panics at the first read.
no_shards : get_item {V = ℕ} "a" 0 (new_shards 0) ≡ none
unfolding cache
no_shards = refl

abbrev events : List (Event ℕ)
events = add "a" 1 10 0 ∷ add "b" 2 10 0 ∷ tick 3 ∷ add "a" 3 10 4 ∷ []

get_item-run_example :
    (r : Running ℕ) × (run events (record { cache = new_shards 5; waiting = true }) ≡ some r)
    × IsValid r.cache
    × (get_item "a" 14 r.cache ≡ some (some 3))
get_item-run_example = get_item-run 5 events "a" 14 (omega arith) (omega arith)

never_shrinks_example :
    (r : Running ℕ) × (run
        (tick 5 ∷ add "b" 2 1 6 ∷ tick 100 ∷ [])
        (record { cache = with_a; waiting = true })
      ≡ some r)
    × (size (clean_up 5 (record { cache = with_a; waiting = true })).cache.shards
        ≤ size r.cache.shards)
never_shrinks_example =
    never_shrinks (add "b" 2 1 6 ∷ tick 100 ∷ []) (record { cache = with_a; waiting = true }) 5
      with_a-IsValid (omega arith)
