-- ===== src/Manager/Caching/Laws.antt =====
-- What storing the results of a search does to the caches.
use job_parser.Base.{ℕ, suc, String, ◌≡◌, refl, none, some, List, [], ◌∷◌, arith}
use job_parser.Cache.{InmemoryShardedCache, add_item_with_ttl}
use job_parser.Cache.Laws.{IsValid, add-IsValid}
use job_parser.Models.{SearchParams, Vacancy, SearchVacanciesResult, Any}
use job_parser.Manager.State.{ParsersManager}
use job_parser.Manager.Caching.{
  GenHash, cache_search_results, composite_id, index_vacancies, index_results,
}

-- The three caches have shards, and each key has its place.
pub record IsReady (pm : ParsersManager) : Type 0 where
  pub search_valid : IsValid pm.search_cache
  pub index_valid : IsValid pm.vacancy_index
  pub details_valid : IsValid pm.vacancy_details

-- The index entry of the vacancy at the position `i`.
abbrev pub entry : String → String → ℕ → Any
entry hash parser i =
    Any.index (record { search_hash = hash; parser_name = parser; index = i; created_at = 0 })

pub index_vacancies-IsValid :
    (hash parser : String) (ttl now i : ℕ) (vs : List Vacancy) (c : InmemoryShardedCache Any)
    → IsValid c
    → (d : InmemoryShardedCache Any) × (index_vacancies hash parser ttl now i vs c ≡ some d)
      × IsValid d
unfolding index_vacancies
index_vacancies-IsValid hash parser ttl now i [] c v = (c, refl, v)
index_vacancies-IsValid hash parser ttl now i (x ∷ vs) c v =
    let (d, e, w) = add-IsValid c (composite_id x.seeker x.id) (entry hash parser i) ttl now v in
    let (d', e', w') = index_vacancies-IsValid hash parser ttl now (suc i) vs d w in
    (d', rw (e, index_vacancies) e', w')

index_results-IsValid :
    (hash : String) (ttl now : ℕ) (rs : List SearchVacanciesResult) (c : InmemoryShardedCache Any)
    → IsValid c
    → (d : InmemoryShardedCache Any) × (index_results hash ttl now rs c ≡ some d) × IsValid d
unfolding index_results
index_results-IsValid hash ttl now [] c v = (c, refl, v)
index_results-IsValid hash ttl now (r ∷ rs) c v =
    let (d, e, w) = index_vacancies-IsValid hash r.parser_name ttl now 0 r.vacancies c v in
    let (d', e', w') = index_results-IsValid hash ttl now rs d w in
    (d', rw (e, index_results) e', w')

-- On ready caches the results are stored without a panic; the search cache gains the one entry of the
-- hash, and of the rest only the index changes.
pub cache_search_results_lem :
    (gen : GenHash) (now : ℕ) (params : SearchParams) (rs : List SearchVacanciesResult)
    (pm : ParsersManager) (hash : String)
    → IsReady pm
    → gen params ≡ (hash, none)
    → (c d : InmemoryShardedCache Any) × (add_item_with_ttl hash
          (Any.results (some rs))
          pm.search_cache_ttl
          now
          pm.search_cache
        ≡ some c)
      × (cache_search_results gen now params rs pm
          ≡ some (record pm { search_cache = c; vacancy_index = d }))
      × IsReady (record pm { search_cache = c; vacancy_index = d })
unfolding cache_search_results
cache_search_results_lem gen now params rs pm hash v g =
    let (c, e, w) =
      add-IsValid pm.search_cache hash (Any.results (some rs)) pm.search_cache_ttl now
        v.search_valid in
    let (d, e', w') =
      index_results-IsValid hash pm.vacancy_cache_ttl now rs pm.vacancy_index v.index_valid in
    (
      c,
      d,
      e,
      ground (arith, g, e, e'),
      record { search_valid = w; index_valid = w'; details_valid = v.details_valid },
    )
