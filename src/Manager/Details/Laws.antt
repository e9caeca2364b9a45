-- ===== src/Manager/Details/Laws.antt =====
-- The details of a vacancy: the source that is asked, and what is cached where.
use job_parser.Base.{
  ℕ, ◌+◌, ◌≤◌, String, ◌≡◌, refl, ◌≢◌, Bool, Option, Option-cases, inl, inr, none, some, List, [],
  ◌∷◌, arith, is_some, eq_iff, eq_refl, All,
}
use job_parser.Breaker.{CircuitBreaker}
use job_parser.Cache.{get_item}
use job_parser.Cache.Laws.{add-IsValid}
use job_parser.Cache.Reads.{get_item-add}
use job_parser.Models.{Any, Vacancy, SearchVacancyDetailesResult}
use job_parser.Status.{get_parser_status}
use job_parser.Status.{Stats}
use job_parser.Manager.State.{Parser, ParsersManager}
use job_parser.Manager.Caching.{composite_id, cache_details_result}
use job_parser.Manager.Caching.Laws.{IsReady}
use job_parser.Manager.Details.{
  shown, from_search, from_index, choose_parser, search_vacancy_detailes, get_vacancy_details,
}

choose-unregistered :
    (source : String) (known : Bool) (ps : List Parser)
    → All (λ p. p.name ≢ source) ps
    → choose_parser source known ps ≡ none
unfolding choose_parser
choose-unregistered source known [] h = refl
choose-unregistered source known (p ∷ ps) (n, h) =
    ground (arith, eq_iff p.name source, choose-unregistered source known ps h)

-- A request for details from a source that names no parser panics: the search is called on a nil
-- interface. The details are not cached.
pub unknown_source_panics :
    (id source : String) (start finish : ℕ) (pm : ParsersManager)
    → All (λ p. p.name ≢ source) pm.parsers
    → get_item id start pm.vacancy_details ≡ some none
    → search_vacancy_detailes id source start finish pm ≡ none
unfolding search_vacancy_detailes
unknown_source_panics id source start finish pm h c = ground (
  arith,
  c,
  choose-unregistered source (is_some (get_parser_status source pm.parsers_status_manager))
      pm.parsers h,
)

-- Fetched details do not get where they are looked for: the request returns them and leaves the
-- details cache as it was, and until the index's TTL has passed they stand in the search cache, under
-- the bare ID. The caches are ready; the details cache does not hold the ID; the source names a parser
-- that the status manager knows; the parser answers without an error.
details_fetched_again :
    (id source : String) (start finish later : ℕ) (pm : ParsersManager) (p : Parser)
    (d : SearchVacancyDetailesResult)
    → IsReady pm
    → choose_parser source (is_some (get_parser_status source pm.parsers_status_manager)) pm.parsers
      ≡ some p
    → p.search_vacancies_detailes id ≡ (d, none)
    → get_item id start pm.vacancy_details ≡ some none
    → later ≤ finish + pm.vacancy_cache_ttl
    → (pm' : ParsersManager) × (search_vacancy_detailes id source start finish pm
        ≡ some (pm', d, none))
      × (pm'.vacancy_details ≡ pm.vacancy_details)
      × (get_item id later pm'.search_cache ≡ some (some (Any.details d)))
unfolding search_vacancy_detailes cache_details_result
details_fetched_again id source start finish later pm p d v c r m l =
    let (s, added, valid) =
      add-IsValid pm.search_cache id (Any.details d) pm.vacancy_cache_ttl finish v.search_valid in
    (
      record pm { search_cache = s },
      ground (arith, c, r, m, added),
      refl,
      ground (
        arith,
        eq_refl id,
        get_item-add pm.search_cache s id id (Any.details d) pm.vacancy_cache_ttl finish later
            v.search_valid added,
      ),
    )

-- A vacancy that a brief look shows is shown whatever the state of the global breaker and of
-- the statuses.
module _ (source id : String) (pm : ParsersManager) (v : Vacancy) (stats : Stats)
    (cb : CircuitBreaker) where
  search-breaker :
      (item : Option Any)
      → from_search item source id pm ≡ (pm, shown v)
      → from_search item source id
          (record pm { parsers_status_manager = stats; circuit_breaker = cb })
        ≡ (record pm { parsers_status_manager = stats; circuit_breaker = cb }, shown v)
  unfolding from_search
  search-breaker none h = ground (arith, h)
  search-breaker (some (Any.results rs)) h = ground (arith, h)
  search-breaker (some (Any.details d)) h = ground (arith, h)
  search-breaker (some (Any.index i)) h = ground (arith, h)

  index-breaker :
      (now : ℕ) (item : Option Any)
      → from_index item source id now pm ≡ some (pm, shown v)
      → from_index item source id now
          (record pm { parsers_status_manager = stats; circuit_breaker = cb })
        ≡ some (record pm { parsers_status_manager = stats; circuit_breaker = cb }, shown v)
  unfolding from_index
  index-breaker now none h = ground (arith, h)
  index-breaker now (some (Any.results rs)) h = ground (arith, h)
  index-breaker now (some (Any.details d)) h = ground (arith, h)
  index-breaker now (some (Any.index i)) h =
      elim (Option-cases (get_item i.search_hash now pm.search_cache)) [
        | inl n ↦ ground (arith, n, h)
        | inr (item, y) ↦ ground (arith, y, search-breaker item (ground (arith, y, h)))
      ]

  pub shown-anyway :
      (now : ℕ)
      → get_vacancy_details source id now pm ≡ some (pm, shown v)
      → get_vacancy_details source id now
          (record pm { parsers_status_manager = stats; circuit_breaker = cb })
        ≡ some (record pm { parsers_status_manager = stats; circuit_breaker = cb }, shown v)
  unfolding get_vacancy_details
  shown-anyway now h =
      elim (Option-cases (get_item (composite_id source id) now pm.vacancy_index)) [
        | inl n ↦ ground (arith, n, h)
        | inr (item, y) ↦ ground (arith, y, index-breaker now item (ground (arith, y, h)))
      ]
