-- ===== src/Manager/Threads/Typed.antt =====
-- What the caches hold while searches, details requests and brief looks run at once.
use mathlib.Core.Path.{subst}
use text.Mathlib.Text.{◌==◌ as str_eq}
use job_parser.Base.{
  ℕ, String, ◌≡◌, refl, Bool, true, false, Option, none, some, List, [], ◌∷◌, ◌++◌, keep, All,
  Any as Listed, is_some, ap, ◌||◌, ◌⊎◌, Bool-cases, Option-cases, inl, inr,
}
use job_parser.Base.Error.{Error}
use job_parser.Cache.Laws.{IsValid}
use job_parser.Cache.Items.{Holds}
use job_parser.Models.{SearchParams, SearchVacanciesResult, VacancyIndex, Any}
use job_parser.Status.{Stats}
use job_parser.Manager.State.{Parser, ParsersManager, alive_in, get_alive_parsers}
use job_parser.Manager.Caching.{GenHash}
use job_parser.Manager.Search.{
  Env, Fate, answered, timed_out, search_one, or_nil, is_successful, filter_successful_results,
}
use job_parser.Manager.Threads.{
  Thread, search, selecting, asking, storing, indexing, searched, details, fetching, keeping,
  detailed, brief, looking, forgetting, briefed,
}

-- What stays the same: the manager's parsers, the computation of a search's hash, and a test that such
-- a hash passes and no ID of a vacancy that is asked for.
pub record World : Type 0 where
  pub parsers : List Parser
  pub gen_hash : GenHash
  pub is_hash : String → Bool

module _ (w : World) where
  abbrev pub IsSite : Parser → Type 0
  IsSite p = Listed (λ q. q ≡ p) w.parsers

  -- What one of the manager's parsers answers, under its name, to parameters with this hash.
  abbrev pub IsAnswer : String → SearchVacanciesResult → Type 0
  IsAnswer hash r =
      (params : SearchParams) × (p : Parser) × IsSite p
      × (w.gen_hash params ≡ (hash, none))
      × (p.search_vacancies params ≡ (r.vacancies, none))
      × (p.name ≡ r.parser_name)

  abbrev pub IsKept : String → SearchVacanciesResult → Type 0
  IsKept hash r = (is_successful r ≡ true) × IsAnswer hash r

  -- What the search cache holds under a key: under a hash, the successful results of a search with
  -- that hash; under a vacancy's ID, its details.
  abbrev pub SearchItem : String → Any → Type 0
  SearchItem key (Any.results none) = ⊥
  SearchItem key (Any.results (some rs)) = (w.is_hash key ≡ true) × All (IsKept key) rs
  SearchItem key (Any.details d) = w.is_hash key ≡ false
  SearchItem key (Any.index i) = ⊥

  -- What the reverse index holds: indices that name the hash of a search.
  abbrev pub IndexItem : String → Any → Type 0
  IndexItem key (Any.results rs) = ⊥
  IndexItem key (Any.details d) = ⊥
  IndexItem key (Any.index i) = w.is_hash i.search_hash ≡ true

  -- The details cache holds nothing.
  abbrev pub NoItem : String → Any → Type 0
  NoItem key a = ⊥

  pub record IsTyped (pm : ParsersManager) : Type 0 where
    pub same_parsers : pm.parsers ≡ w.parsers
    pub search_valid : IsValid pm.search_cache
    pub index_valid : IsValid pm.vacancy_index
    pub details_valid : IsValid pm.vacancy_details
    pub search_items : Holds SearchItem pm.search_cache.shards
    pub index_items : Holds IndexItem pm.vacancy_index.shards
    pub details_items : Holds NoItem pm.vacancy_details.shards

  -- A result of a search with this hash.
  abbrev pub IsOwn : String → SearchVacanciesResult → Type 0
  IsOwn hash r = (is_successful r ≡ false) ⊎ IsAnswer hash r

  -- The environment of a search: its hash, and goroutines for the parsers that it is given alone.
  abbrev pub Hashes : Env → SearchParams → Type 0
  Hashes env params =
      (env.gen_hash ≡ w.gen_hash)
      × ((is_some (w.gen_hash params).1 || w.is_hash (w.gen_hash params).0) ≡ true)
      × ((ps : List Parser) → All (λ (a : Parser × Fate). Listed (λ q. q ≡ a.0) ps) (env.arrive ps))

  abbrev pub Names : String × VacancyIndex → Type 0
  Names (key, i) = w.is_hash i.search_hash ≡ true

  -- What holds of a thread's local variables.
  abbrev pub IsFit : Thread → Type 0
  IsFit (search env params) = Hashes env params
  IsFit (selecting env params) = Hashes env params
  IsFit (asking params hash todo rs) =
      (w.is_hash hash ≡ true)
      × (w.gen_hash params ≡ (hash, none))
      × All (λ (a : Parser × Fate). IsSite a.0) todo
      × All (IsOwn hash) rs
  IsFit (storing hash good rs) =
      (w.is_hash hash ≡ true) × All (IsKept hash) good × All (IsOwn hash) rs
  IsFit (indexing hash es rs) = All Names es × All (IsOwn hash) rs
  IsFit (searched hash rs err) = All (IsOwn hash) (or_nil rs)
  IsFit (details id source) = w.is_hash id ≡ false
  IsFit (fetching id source) = w.is_hash id ≡ false
  IsFit (keeping id d) = w.is_hash id ≡ false
  IsFit (detailed d err) = Unit
  IsFit (brief source id) = Unit
  IsFit (looking i source id) = w.is_hash i.search_hash ≡ true
  IsFit (forgetting source id) = Unit
  IsFit (briefed b) = Unit

  pub IsKept-IsOwn :
      (hash : String) (rs : List SearchVacanciesResult) → All (IsKept hash) rs → All (IsOwn hash) rs
  IsKept-IsOwn hash [] h = tt
  IsKept-IsOwn hash (r ∷ rs) (k, h) = (inr k.1, IsKept-IsOwn hash rs h)

  -- One goroutine's result is of its own search.
  pub search_one-IsOwn :
      (params : SearchParams) (hash : String) (now : ℕ) (a : Parser × Fate) (stats : Stats)
      → w.gen_hash params ≡ (hash, none)
      → IsSite a.0
      → IsOwn hash (search_one params hash now a stats).1
  unfolding search_one
  search_one-IsOwn params hash now (p, answered d) stats g s =
      elim (Option-cases (p.search_vacancies params).1) [
        | inl good ↦ inr (
          params,
          p,
          s,
          g,
          ap (λ (e : Option Error). ((p.search_vacancies params).0, e)) good,
          refl,
        )
        | inr (e, bad) ↦ inl (rw bad refl)
      ]
  search_one-IsOwn params hash now (p, timed_out u) stats g s = inl refl

  pub filter-IsKept :
      (hash : String) (rs : List SearchVacanciesResult)
      → All (IsOwn hash) rs
      → All (IsKept hash) (filter_successful_results (some rs))
  unfolding filter_successful_results
  filter-IsKept hash [] h = tt
  filter-IsKept hash (r ∷ rs) (inl n, h) = rw n (filter-IsKept hash rs h)
  filter-IsKept hash (r ∷ rs) (inr a, h) = elim (Bool-cases (is_successful r)) [
    | inl y ↦ rw y ((y, a), filter-IsKept hash rs h)
    | inr n ↦ rw n (filter-IsKept hash rs h)
  ]

  Listed-append :
      (a : Parser) (ps qs : List Parser)
      → Listed (λ q. q ≡ a) (ps ++ qs)
      → Listed (λ q. q ≡ a) ps ⊎ Listed (λ q. q ≡ a) qs
  Listed-append a [] qs h = inr h
  Listed-append a (p ∷ ps) qs (inl e) = inl (inl e)
  Listed-append a (p ∷ ps) qs (inr h) = elim (Listed-append a ps qs h) [
    | inl k ↦ inl (inr k)
    | inr k ↦ inr k
  ]

  or_later :
      (a : Parser) (p : Parser → Bool) (x : Parser) (ps : List Parser)
      → (Listed (λ q. q ≡ a) (keep p ps) → Listed (λ q. q ≡ a) ps)
      → Listed (λ q. q ≡ a) (x ∷ keep p ps)
      → Listed (λ q. q ≡ a) (x ∷ ps)
  or_later a p x ps f (inl e) = inl e
  or_later a p x ps f (inr h) = inr (f h)

  Listed-keep :
      (a : Parser) (p : Parser → Bool) (ps : List Parser)
      → Listed (λ q. q ≡ a) (keep p ps)
      → Listed (λ q. q ≡ a) ps
  Listed-keep a p [] h = h
  Listed-keep a p (x ∷ ps) h = elim (Bool-cases (p x)) [
    | inl y ↦ or_later a p x ps (Listed-keep a p ps) (rw y at h)
    | inr n ↦ inr (Listed-keep a p ps (rw n at h))
  ]

  Listed-alive :
      (a : Parser) (ns : List String) (ps : List Parser)
      → Listed (λ q. q ≡ a) (alive_in ns ps)
      → Listed (λ q. q ≡ a) ps
  unfolding alive_in
  Listed-alive a [] ps h = absurd h
  Listed-alive a (n ∷ ns) ps h =
      elim (Listed-append a (keep (λ p. str_eq p.name n) ps) (alive_in ns ps) h) [
        | inl k ↦ Listed-keep a _ ps k
        | inr k ↦ Listed-alive a ns ps k
      ]

  -- A goroutine that a search starts is for one of the manager's parsers.
  pub All-IsSite :
      (names : List String) (pm : ParsersManager) (todo : List (Parser × Fate))
      → pm.parsers ≡ w.parsers
      → All (λ (a : Parser × Fate). Listed (λ q. q ≡ a.0) (get_alive_parsers names pm)) todo
      → All (λ (a : Parser × Fate). IsSite a.0) todo
  unfolding get_alive_parsers
  All-IsSite names pm [] e h = tt
  All-IsSite names pm (a ∷ todo) e (l, h) = (
    subst (λ ps. Listed (λ q. q ≡ a.0) ps) e (Listed-alive a.0 names pm.parsers l),
    All-IsSite names pm todo e h,
  )
