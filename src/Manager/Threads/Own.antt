-- ===== src/Manager/Threads/Own.antt =====
-- Whose results a search gets, with the key that the program computes.
use job_parser.Base.{
  ℕ, String, ◌≡◌, ◌<◌, ◌∙◌, ap, sym, false, Option, none, some, List, [], ◌∷◌, All, ◌⊎◌, inl, inr,
  get_elem?,
}
use job_parser.Base.Error.{Error}
use job_parser.Models.{SearchParams, SearchVacanciesResult}
use job_parser.Manager.State.{Parser, ParsersManager}
use job_parser.Manager.Caching.{Results, GenHash}
use job_parser.Manager.Hash.{Digests, gen_hash_from_search_param, Collide, same_search}
use job_parser.Manager.Search.{is_successful, or_nil}
use job_parser.Manager.Threads.{searched}
use job_parser.Manager.Threads.System.{System, Event, run}
use job_parser.Manager.Threads.Typed.{World, IsSite, IsOwn}
use job_parser.Manager.Threads.Reach.{fresh, Allowed, searched-IsOwn}

module _ (w : World) {Byte : Type 0} (lib : Digests Byte) where
  -- What one of the manager's parsers answers, under its name, to these parameters, or to others whose
  -- encoding collides with theirs.
  abbrev pub IsFor : SearchParams → SearchVacanciesResult → Type 0
  IsFor params r =
      (is_successful r ≡ false)
      ⊎ ((other : SearchParams) × (p : Parser) × IsSite w p
          × (p.search_vacancies other ≡ (r.vacancies, none))
          × (p.name ≡ r.parser_name)
          × ((other ≡ params) ⊎ Collide lib other params))

  own-IsFor :
      (params : SearchParams) (hash : String) (rs : List SearchVacanciesResult)
      → w.gen_hash ≡ gen_hash_from_search_param lib
      → gen_hash_from_search_param lib params ≡ (hash, none)
      → All (IsOwn w hash) rs
      → All (IsFor params) rs
  own-IsFor params hash [] g h a = tt
  own-IsFor params hash (r ∷ rs) g h (inl failed, a) = (inl failed, own-IsFor params hash rs g h a)
  own-IsFor params hash (r ∷ rs) g h (inr (other, p, site, e, answer, name), a) = (
    inr (
      other,
      p,
      site,
      answer,
      name,
      same_search lib other params hash (sym (ap (λ (f : GenHash). f other) g) ∙ e) h,
    ),
    own-IsFor params hash rs g h a,
  )

  -- No search gets another search's results: after any interleaving of searches, details requests,
  -- brief looks, cleaners, health checks and late status updates on a manager with new caches, each
  -- successful result that a search ends with under the key of the parameters `params`, from the cache
  -- or not, is what a parser of the manager, under its name, answers to `params`, or to parameters
  -- that differ from them and whose encoding has the same digits. The key is that of
  -- genHashFromSearchParam. The caches have shards. The hashes of searches pass a test that no ID of a
  -- vacancy asked for passes, and searches start goroutines for the parsers they are given.
  pub searched-IsFor :
      (n m k : ℕ) (pm : ParsersManager) (es : List Event) (s : System) (i : ℕ)
      (params : SearchParams) (hash : String) (rs : Results) (err : Option Error)
      → 0 < n
      → 0 < m
      → 0 < k
      → pm.parsers ≡ w.parsers
      → All (Allowed w) es
      → run es (fresh n m k pm) ≡ some s
      → w.gen_hash ≡ gen_hash_from_search_param lib
      → gen_hash_from_search_param lib params ≡ (hash, none)
      → get_elem? s.threads i ≡ some (searched hash rs err)
      → All (IsFor params) (or_nil rs)
  searched-IsFor n m k pm es s i params hash rs err p q r e a h g f t =
      own-IsFor params hash (or_nil rs) g f
        (searched-IsOwn w n m k pm es s i hash rs err p q r e a h t)
