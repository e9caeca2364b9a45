-- ===== src/Manager/Threads/Searches.antt =====
-- The moves of a search keep the caches typed and the thread's variables fit.
use job_parser.Base.{
  ℕ, String, ◌≡◌, sym, true, Option, none, some, List, [], ◌∷◌, All, is_some, ap, ◌||◌, Bool-cases,
  inl, inr,
}
use job_parser.Base.Panic.{◌>>=◌}
use job_parser.Base.Error.{Error}
use job_parser.Cache.{get_item}
use job_parser.Cache.Items.{Gives, get_item-Gives}
use job_parser.Models.{SearchParams, SearchVacanciesResult, Any}
use job_parser.Manager.State.{Parser, ParsersManager, get_alive_parsers}
use job_parser.Manager.Caching.{GenHash, Results, try_get_from_cache, hit_for, cached_results}
use job_parser.Manager.Search.{Env, Fate, as_slice, or_nil, is_empty, filter_successful_results}
use job_parser.Manager.Threads.{
  Thread, search, hash_of, after_cache, search_failed, hashed, in_context, selected, gathered, move,
}
use job_parser.Manager.Threads.Typed.{
  World, IsSite, All-IsSite, SearchItem, IsTyped, IsOwn, Hashes, IsFit, IsKept-IsOwn, filter-IsKept,
}

module _ (w : World) where
  -- What a read of the search cache for a search gives.
  abbrev Reads : String → Option (Option Results) → Type 0
  Reads hash none = ⊥
  Reads hash (some none) = Unit
  Reads hash (some (some rs)) = All (IsOwn w hash) (or_nil rs)

  given-Reads :
      (hash : String) (o : Option (Option Any))
      → Gives (SearchItem w) hash o
      → Reads hash (o >>= λ item. some (cached_results item))
  unfolding cached_results
  given-Reads hash none h = h
  given-Reads hash (some none) h = tt
  given-Reads hash (some (some (Any.results none))) h = absurd h
  given-Reads hash (some (some (Any.results (some rs)))) h = IsKept-IsOwn w hash rs h.1
  given-Reads hash (some (some (Any.details d))) h = tt
  given-Reads hash (some (some (Any.index i))) h = absurd h

  hit-Reads :
      (now : ℕ) (g : String × Option Error) (pm : ParsersManager)
      → IsTyped w pm
      → Reads g.0 (hit_for now g pm)
  unfolding hit_for
  hit-Reads now (hash, some e) pm t = tt
  hit-Reads now (hash, none) pm t =
      given-Reads hash (get_item hash now pm.search_cache)
        (get_item-Gives (SearchItem w) pm.search_cache hash now t.search_valid t.search_items)

  -- After a move that does not panic.
  abbrev pub After : Option (ParsersManager × Thread) → Type 0
  After none = Unit
  After (some (pm, t)) = IsTyped w pm × IsFit w t

  after_cache-After :
      (env : Env) (params : SearchParams) (pm : ParsersManager) (o : Option (Option Results))
      → IsTyped w pm
      → Hashes w env params
      → Reads (hash_of env params) o
      → After (o >>= λ cached. some (pm, after_cache cached env params))
  unfolding after_cache
  after_cache-After env params pm none t f h = tt
  after_cache-After env params pm (some none) t f h = (t, f)
  after_cache-After env params pm (some (some rs)) t f h = (t, h)

  pub search-After :
      (now : ℕ) (env : Env) (params : SearchParams) (pm : ParsersManager)
      → IsTyped w pm
      → Hashes w env params
      → After (move now (search env params) pm)
  unfolding move try_get_from_cache
  search-After now env params pm t f =
      after_cache-After env params pm (hit_for now (env.gen_hash params) pm) t f
        (hit-Reads now (env.gen_hash params) pm t)

  hashed-IsFit :
      (g : String × Option Error) (env : Env) (params : SearchParams) (todo : List (Parser × Fate))
      → w.gen_hash params ≡ g
      → (is_some g.1 || w.is_hash g.0) ≡ true
      → All (λ (a : Parser × Fate). IsSite w a.0) todo
      → IsFit w (hashed g env params todo)
  unfolding hashed search_failed
  hashed-IsFit (hash, some e) env params todo g h s = tt
  hashed-IsFit (hash, none) env params todo g h s = (h, g, s, tt)

  in_context-IsFit :
      (over : Option Error) (env : Env) (params : SearchParams) (todo : List (Parser × Fate))
      → Hashes w env params
      → All (λ (a : Parser × Fate). IsSite w a.0) todo
      → IsFit w (in_context over env params todo)
  unfolding in_context search_failed
  in_context-IsFit none env params todo (e, h, _) s =
      hashed-IsFit (env.gen_hash params) env params todo (sym (ap (λ (g : GenHash). g params) e))
        (rw e h) s
  in_context-IsFit (some x) env params todo f s = tt

  pub selected-IsFit :
      (env : Env) (params : SearchParams) (names : List String) (pm : ParsersManager)
      → pm.parsers ≡ w.parsers
      → Hashes w env params
      → IsFit w (selected env params names pm)
  unfolding selected
  selected-IsFit env params [] pm e f = tt
  selected-IsFit env params (n ∷ ns) pm e f =
      in_context-IsFit env.ctx_err env params _ f
        (All-IsSite w (n ∷ ns) pm _ e (f.2 (get_alive_parsers (n ∷ ns) pm)))

  pub or_nil-IsOwn :
      (hash : String) (rs : List SearchVacanciesResult)
      → All (IsOwn w hash) rs
      → All (IsOwn w hash) (or_nil (as_slice rs))
  unfolding as_slice
  or_nil-IsOwn hash [] h = h
  or_nil-IsOwn hash (r ∷ rs) h = h

  pub gathered-IsFit :
      (hash : String) (rs : List SearchVacanciesResult)
      → w.is_hash hash ≡ true
      → All (IsOwn w hash) rs
      → IsFit w (gathered hash rs)
  unfolding gathered as_slice filter_successful_results
  gathered-IsFit hash [] b h = h
  gathered-IsFit hash (r ∷ rs) b h =
      elim (Bool-cases (is_empty (filter_successful_results (some (r ∷ rs))))) [
        | inl y ↦ rw y h
        | inr n ↦ rw n (b, filter-IsKept w hash (r ∷ rs) h, h)
      ]
