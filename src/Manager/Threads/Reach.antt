-- ===== src/Manager/Threads/Reach.antt =====
-- Any run of searches, details requests, brief looks, cleaners and health checks on a new manager.
use job_parser.Base.{
  ℕ, zero, suc, ◌<◌, String, ◌≡◌, refl, false, Option, none, some, List, [], ◌∷◌, ◌++◌, get_elem?,
  set, All, All-append,
}
use mathlib.Core.Path.{subst}
use mathlib.Core.Option.{some-injective}
use job_parser.Base.Panic.{◌>>=◌}
use job_parser.Base.Error.{Error}
use job_parser.Cache.{get_item, new_shards}
use job_parser.Cache.Laws.{new-IsValid, clean_up_expired-IsValid}
use job_parser.Cache.Items.{Gives, new-Holds, clean-Holds, get_item-Gives}
use job_parser.Models.{Any}
use job_parser.Manager.State.{ParsersManager}
use job_parser.Manager.Caching.{Results}
use job_parser.Manager.Search.{or_nil}
use job_parser.Manager.Threads.{Thread, search, details, brief, searched, move}
use job_parser.Manager.Threads.System.{
  System, Event, begin_search, begin_details, begin_brief, act, late_update, check, clean_searches,
  clean_index, clean_details, step, run, moved, act_of,
}
use job_parser.Manager.Threads.Typed.{
  World, SearchItem, IndexItem, NoItem, IsTyped, IsOwn, IsFit, Hashes,
}
use job_parser.Manager.Threads.Searches.{After}
use job_parser.Manager.Threads.Moves.{restats, move-After}

-- A manager whose three caches are new.
abbrev pub fresh : ℕ → ℕ → ℕ → ParsersManager → System
fresh n m k pm = record {
  manager = record pm {
    search_cache = new_shards n;
    vacancy_index = new_shards m;
    vacancy_details = new_shards k;
  };
  threads = [];
}

module _ (w : World) where
  -- What the environment keeps to: the hash of a search passes the test, if there is one, and the ID of
  -- a vacancy whose details are asked for does not.
  abbrev pub Allowed : Event → Type 0
  Allowed (begin_search env params) = Hashes w env params
  Allowed (begin_details id source) = w.is_hash id ≡ false
  Allowed (begin_brief source id) = Unit
  Allowed (act i now) = Unit
  Allowed (late_update name success err now) = Unit
  Allowed (check r now) = Unit
  Allowed (clean_searches now) = Unit
  Allowed (clean_index now) = Unit
  Allowed (clean_details now) = Unit

  abbrev IsGood : System → Type 0
  IsGood s = IsTyped w s.manager × All (IsFit w) s.threads

  abbrev GoodAfter : Option System → Type 0
  GoodAfter none = Unit
  GoodAfter (some s) = IsGood s

  fresh-IsGood :
      (n m k : ℕ) (pm : ParsersManager)
      → pm.parsers ≡ w.parsers
      → 0 < n
      → 0 < m
      → 0 < k
      → IsGood (fresh n m k pm)
  fresh-IsGood n m k pm e p q r = (
    record {
      same_parsers = e;
      search_valid = new-IsValid Any n p;
      index_valid = new-IsValid Any m q;
      details_valid = new-IsValid Any k r;
      search_items = new-Holds (SearchItem w) n;
      index_items = new-Holds (IndexItem w) m;
      details_items = new-Holds (NoItem w) k;
    },
    tt,
  )

  All-set :
      (i : ℕ) (t : Thread) (ts : List Thread)
      → IsFit w t
      → All (IsFit w) ts
      → All (IsFit w) (set ts i t)
  All-set i t [] f h = tt
  All-set zero t (u ∷ ts) f (_, h) = (f, h)
  All-set (suc i) t (u ∷ ts) f (g, h) = (g, All-set i t ts f h)

  pub All-get :
      (i : ℕ) (t : Thread) (ts : List Thread)
      → get_elem? ts i ≡ some t
      → All (IsFit w) ts
      → IsFit w t
  All-get i t [] e h = absurd (cc e)
  All-get zero t (u ∷ ts) e (f, h) = subst (IsFit w) (some-injective _ _ e) f
  All-get (suc i) t (u ∷ ts) e (f, h) = All-get i t ts e h

  moved-Good :
      (i : ℕ) (s : System) (o : Option (ParsersManager × Thread))
      → After w o
      → All (IsFit w) s.threads
      → GoodAfter (moved i s o)
  unfolding moved
  moved-Good i s none a h = tt
  moved-Good i s (some (pm, t)) (v, f) h = (v, All-set i t s.threads f h)

  act-Good :
      (o : Option Thread) (i now : ℕ) (s : System)
      → ((t : Thread) → o ≡ some t → IsFit w t)
      → IsGood s
      → GoodAfter (act_of o i now s)
  unfolding act_of
  act-Good none i now s f g = g
  act-Good (some t) i now s f (v, h) =
      moved-Good i s (move now t s.manager) (move-After w now t s.manager v (f t refl)) h

  begun-Good :
      (t : Thread) (s : System)
      → IsFit w t
      → IsGood s
      → IsGood (record s { threads = s.threads ++ t ∷ [] })
  begun-Good t s f (v, h) = (v, All-append (IsFit w) s.threads (t ∷ []) h (f, tt))

  step-Good : (e : Event) (s : System) → Allowed e → IsGood s → GoodAfter (step e s)
  unfolding step
  step-Good (begin_search env params) s a g = begun-Good (search env params) s a g
  step-Good (begin_details id source) s a g = begun-Good (details id source) s a g
  step-Good (begin_brief source id) s a g = begun-Good (brief source id) s tt g
  step-Good (act i now) s a (v, h) =
      act-Good (get_elem? s.threads i) i now s (λ t e. All-get i t s.threads e h) (v, h)
  step-Good (late_update name success err now) s a (v, h) = (restats w v, h)
  step-Good (check r now) s a (v, h) = (restats w v, h)
  step-Good (clean_searches now) s a (v, h) = (
    record {
      same_parsers = v.same_parsers;
      search_valid = clean_up_expired-IsValid now s.manager.search_cache v.search_valid;
      index_valid = v.index_valid;
      details_valid = v.details_valid;
      search_items = clean-Holds (SearchItem w) now s.manager.search_cache v.search_items;
      index_items = v.index_items;
      details_items = v.details_items;
    },
    h,
  )
  step-Good (clean_index now) s a (v, h) = (
    record {
      same_parsers = v.same_parsers;
      search_valid = v.search_valid;
      index_valid = clean_up_expired-IsValid now s.manager.vacancy_index v.index_valid;
      details_valid = v.details_valid;
      search_items = v.search_items;
      index_items = clean-Holds (IndexItem w) now s.manager.vacancy_index v.index_items;
      details_items = v.details_items;
    },
    h,
  )
  step-Good (clean_details now) s a (v, h) = (
    record {
      same_parsers = v.same_parsers;
      search_valid = v.search_valid;
      index_valid = v.index_valid;
      details_valid = clean_up_expired-IsValid now s.manager.vacancy_details v.details_valid;
      search_items = v.search_items;
      index_items = v.index_items;
      details_items = clean-Holds (NoItem w) now s.manager.vacancy_details v.details_items;
    },
    h,
  )

  run_on :
      (es : List Event) (o : Option System)
      → ((s : System) → IsGood s → GoodAfter (run es s))
      → GoodAfter o
      → GoodAfter (o >>= run es)
  run_on es none k g = tt
  run_on es (some s) k g = k s g

  run-Good : (es : List Event) (s : System) → All Allowed es → IsGood s → GoodAfter (run es s)
  unfolding run
  run-Good [] s a g = g
  run-Good (e ∷ es) s (a, as_) g = run_on es (step e s) (λ t. run-Good es t as_) (step-Good e s a g)

  -- The state after a run that does not panic.
  run-IsGood :
      (es : List Event) (s u : System) → All Allowed es → IsGood s → run es s ≡ some u → IsGood u
  run-IsGood es s u a g e = subst GoodAfter e (run-Good es s a g)

  -- The types behind `interface{}` in the three caches: after any interleaving of searches, details
  -- requests, brief looks, cleaners, health checks and late status updates on a manager with new
  -- caches, no read panics; under a hash, the search cache gives a list of successful results, each of
  -- which is what a parser of the manager, under its name, answers to parameters with this hash, and
  -- under any other key details; the reverse index gives an index that names a hash; and the details
  -- cache gives nothing. The hashes of searches pass a test that no ID of a vacancy asked for passes,
  -- all searches compute them in one way, and they start goroutines for the parsers they are given.
  pub read_types :
      (n m k : ℕ) (pm : ParsersManager) (es : List Event) (s : System) (key : String) (now : ℕ)
      → 0 < n
      → 0 < m
      → 0 < k
      → pm.parsers ≡ w.parsers
      → All Allowed es
      → run es (fresh n m k pm) ≡ some s
      → Gives (SearchItem w) key (get_item key now s.manager.search_cache)
        × Gives (IndexItem w) key (get_item key now s.manager.vacancy_index)
        × Gives (NoItem w) key (get_item key now s.manager.vacancy_details)
  read_types n m k pm es s key now p q r e a h =
      let v = (run-IsGood es (fresh n m k pm) s a (fresh-IsGood n m k pm e p q r) h).0 in
      (
        get_item-Gives (SearchItem w) s.manager.search_cache key now v.search_valid v.search_items,
        get_item-Gives (IndexItem w) s.manager.vacancy_index key now v.index_valid v.index_items,
        get_item-Gives (NoItem w) s.manager.vacancy_details key now v.details_valid v.details_items,
      )

  -- No search gets another search's results: after any interleaving of searches, details requests,
  -- brief looks, cleaners, health checks and late status updates on a manager with new caches, each
  -- successful result that a search ends with, from the cache or not, is what a parser of the manager,
  -- under its name, answers to parameters with the hash of the search. The caches have
  -- shards. The hashes of searches pass a test that no ID of a vacancy asked for passes, all searches
  -- compute them in one way, and they start goroutines for the parsers they are given.
  pub searched-IsOwn :
      (n m k : ℕ) (pm : ParsersManager) (es : List Event) (s : System) (i : ℕ) (hash : String)
      (rs : Results) (err : Option Error)
      → 0 < n
      → 0 < m
      → 0 < k
      → pm.parsers ≡ w.parsers
      → All Allowed es
      → run es (fresh n m k pm) ≡ some s
      → get_elem? s.threads i ≡ some (searched hash rs err)
      → All (IsOwn w hash) (or_nil rs)
  searched-IsOwn n m k pm es s i hash rs err p q r e a h g =
      All-get i (searched hash rs err) s.threads g
        (run-IsGood es (fresh n m k pm) s a (fresh-IsGood n m k pm e p q r) h).1
