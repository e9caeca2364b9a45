-- ===== src/Manager/Details/Index.antt =====
-- The way back through the reverse index: from a stored search to one of its vacancies.
use text.Mathlib.Text.{◌==◌ as str_eq}
use job_parser.Base.{
  ℕ, suc, ◌+◌, ◌≤◌, String, ◌≡◌, refl, ◌⊎◌, inl, inr, none, some, List, [], ◌∷◌, arith, eq_iff,
  eq_refl, if◌then◌else◌, Any, Any-map, Bool-cases,
}
use job_parser.Cache.{InmemoryShardedCache, get_item, add_item_with_ttl}
use job_parser.Cache.Laws.{IsValid, add-IsValid}
use job_parser.Cache.Reads.{get_item-add}
use job_parser.Models as Models
use job_parser.Models.{SearchParams, Vacancy, SearchVacanciesResult, VacancyIndex, zero_vacancy}
use job_parser.Manager.State.{ParsersManager}
use job_parser.Manager.Caching.{
  GenHash, composite_id, index_vacancies, index_results, cache_search_results,
}
use job_parser.Manager.Caching.Laws.{IsReady, entry, index_vacancies-IsValid}
use job_parser.Manager.Details.{shown, brief, pick_vacancy, pick_result, get_vacancy_details}

-- A read of the index at `key` gives an entry that leads to the search `hash`.
abbrev Leads : String → String → ℕ → InmemoryShardedCache Models.Any → Type 0
Leads key hash later c =
    (e : VacancyIndex) × (get_item key later c ≡ some (some (Models.Any.index e)))
    × (e.search_hash ≡ hash)

add-hit :
    (key k hash parser : String) (i ttl now later : ℕ) (c d : InmemoryShardedCache Models.Any)
    → IsValid c
    → later ≤ now + ttl
    → add_item_with_ttl k (entry hash parser i) ttl now c ≡ some d
    → k ≡ key
    → Leads key hash later d
add-hit key k hash parser i ttl now later c d v l e same = (
  record { search_hash = hash; parser_name = parser; index = i; created_at = 0 },
  ground (arith, eq_iff k key, get_item-add c d k key (entry hash parser i) ttl now later v e),
  refl,
)

add-Leads :
    (key k hash parser : String) (i ttl now later : ℕ) (c d : InmemoryShardedCache Models.Any)
    → IsValid c
    → later ≤ now + ttl
    → add_item_with_ttl k (entry hash parser i) ttl now c ≡ some d
    → Leads key hash later c
    → Leads key hash later d
add-Leads key k hash parser i ttl now later c d v l e (x, h, s) = elim (Bool-cases (str_eq k key)) [
  | inl t ↦ add-hit key k hash parser i ttl now later c d v l e ((eq_iff k key).0 t)
  | inr t ↦ (x, ground (arith, get_item-add c d k key (entry hash parser i) ttl now later v e), s)
]

-- A vacancy that is indexed under the key.
abbrev KeyIs : String → Vacancy → Type 0
KeyIs key v = composite_id v.seeker v.id ≡ key

-- One more entry of the search `hash`: the vacancies still to come, or a lead.
step-Leads :
    (key hash parser : String) (i ttl now later : ℕ) (x : Vacancy) (vs : List Vacancy)
    (c d : InmemoryShardedCache Models.Any)
    → IsValid c
    → later ≤ now + ttl
    → add_item_with_ttl (composite_id x.seeker x.id) (entry hash parser i) ttl now c ≡ some d
    → Any (KeyIs key) (x ∷ vs) ⊎ Leads key hash later c
    → Any (KeyIs key) vs ⊎ Leads key hash later d
step-Leads key hash parser i ttl now later x vs c d v l e (inl (inl k)) =
    inr (add-hit key (composite_id x.seeker x.id) hash parser i ttl now later c d v l e k)
step-Leads key hash parser i ttl now later x vs c d v l e (inl (inr m)) = inl m
step-Leads key hash parser i ttl now later x vs c d v l e (inr h) =
    inr (add-Leads key (composite_id x.seeker x.id) hash parser i ttl now later c d v l e h)

vacancies-Leads :
    (key hash parser : String) (ttl now later i : ℕ) (vs : List Vacancy)
    (c : InmemoryShardedCache Models.Any)
    → IsValid c
    → later ≤ now + ttl
    → Any (KeyIs key) vs ⊎ Leads key hash later c
    → (d : InmemoryShardedCache Models.Any) × (index_vacancies hash parser ttl now i vs c ≡ some d)
      × IsValid d
      × Leads key hash later d
unfolding index_vacancies
vacancies-Leads key hash parser ttl now later i [] c v l (inl m) = absurd m
vacancies-Leads key hash parser ttl now later i [] c v l (inr h) = (c, refl, v, h)
vacancies-Leads key hash parser ttl now later i (x ∷ vs) c v l m =
    let (d, e, w) = add-IsValid c (composite_id x.seeker x.id) (entry hash parser i) ttl now v in
    let (d', e', w', h) =
      vacancies-Leads key hash parser ttl now later (suc i) vs d w l
        (step-Leads key hash parser i ttl now later x vs c d v l e m) in
    (d', rw (e, index_vacancies) e', w', h)

results-Leads :
    (key hash : String) (ttl now later : ℕ) (rs : List SearchVacanciesResult)
    (c : InmemoryShardedCache Models.Any)
    → IsValid c
    → later ≤ now + ttl
    → Any (λ r. Any (KeyIs key) r.vacancies) rs ⊎ Leads key hash later c
    → (d : InmemoryShardedCache Models.Any) × (index_results hash ttl now rs c ≡ some d)
      × Leads key hash later d
unfolding index_results
results-Leads key hash ttl now later [] c v l (inl m) = absurd m
results-Leads key hash ttl now later [] c v l (inr h) = (c, refl, h)
results-Leads key hash ttl now later (r ∷ rs) c v l (inl (inl m)) =
    let (d, e, w, h) =
      vacancies-Leads key hash r.parser_name ttl now later 0 r.vacancies c v l (inl m) in
    let (d', e', h') = results-Leads key hash ttl now later rs d w l (inr h) in
    (d', rw (e, index_results) e', h')
results-Leads key hash ttl now later (r ∷ rs) c v l (inl (inr m)) =
    let (d, e, w) = index_vacancies-IsValid hash r.parser_name ttl now 0 r.vacancies c v in
    let (d', e', h') = results-Leads key hash ttl now later rs d w l (inl m) in
    (d', rw (e, index_results) e', h')
results-Leads key hash ttl now later (r ∷ rs) c v l (inr h) =
    let (d, e, w, h') =
      vacancies-Leads key hash r.parser_name ttl now later 0 r.vacancies c v l (inr h) in
    let (d', e', h'') = results-Leads key hash ttl now later rs d w l (inr h') in
    (d', rw (e, index_results) e', h'')

-- The vacancy that the next one leaves, when it or a later one has the ID.
pick_vacancy-id :
    (id : String) (vs : List Vacancy) (t : Vacancy)
    → Any (λ v. v.id ≡ id) vs ⊎ (t.id ≡ id)
    → (pick_vacancy id vs t).id ≡ id
unfolding pick_vacancy
pick_vacancy-id id [] t (inl m) = absurd m
pick_vacancy-id id [] t (inr h) = h
pick_vacancy-id id (v ∷ vs) t (inl (inl h)) =
    rw ((eq_iff v.id id).1 h, pick_vacancy) (pick_vacancy-id id vs (brief v t) (inr h))
pick_vacancy-id id (v ∷ vs) t (inl (inr h)) =
    pick_vacancy-id id vs (if str_eq v.id id then brief v t else t) (inl h)
pick_vacancy-id id (v ∷ vs) t (inr h) = elim (Bool-cases (str_eq v.id id)) [
  | inl y ↦ rw (y, pick_vacancy) (pick_vacancy-id id vs (brief v t) (inr ((eq_iff v.id id).0 y)))
  | inr n ↦ rw (n, pick_vacancy) (pick_vacancy-id id vs t (inr h))
]

abbrev Holds : String → String → SearchVacanciesResult → Type 0
Holds source id r = (r.parser_name ≡ source) × Any (λ v. v.id ≡ id) r.vacancies

pick_result-id :
    (source id : String) (rs : List SearchVacanciesResult) (t : Vacancy)
    → Any (Holds source id) rs ⊎ (t.id ≡ id)
    → (pick_result source id rs t).id ≡ id
unfolding pick_result
pick_result-id source id [] t (inl m) = absurd m
pick_result-id source id [] t (inr h) = h
pick_result-id source id (r ∷ rs) t (inl (inl (n, h))) =
    rw ((eq_iff r.parser_name source).1 n, pick_result)
      (pick_result-id source id rs (pick_vacancy id r.vacancies t)
        (inr (pick_vacancy-id id r.vacancies t (inl h))))
pick_result-id source id (r ∷ rs) t (inl (inr h)) =
    pick_result-id source id rs
      (if str_eq r.parser_name source then pick_vacancy id r.vacancies t else t) (inl h)
pick_result-id source id (r ∷ rs) t (inr h) = elim (Bool-cases (str_eq r.parser_name source)) [
  | inl y ↦
      rw (y, pick_result)
        (pick_result-id source id rs (pick_vacancy id r.vacancies t)
          (inr (pick_vacancy-id id r.vacancies t (inr h))))
  | inr n ↦ rw (n, pick_result) (pick_result-id source id rs t (inr h))
]

shown_from :
    (source id hash : String) (later : ℕ) (rs : List SearchVacanciesResult) (pm : ParsersManager)
    → Leads (composite_id source id) hash later pm.vacancy_index
    → get_item hash later pm.search_cache ≡ some (some (Models.Any.results (some rs)))
    → get_vacancy_details source id later pm
      ≡ some (pm, shown (pick_result source id rs zero_vacancy))
unfolding get_vacancy_details
shown_from source id hash later rs pm (x, h, s) c = ground (arith, h, s, c)

-- A search's vacancy is found again by its source and ID: once the results are stored, a request no
-- later than the two TTLs after it shows a vacancy with that ID and changes nothing, when a stored
-- result of the parser `source` holds a vacancy with that ID whose seeker is `source`. The caches
-- are ready, and the parameters have a hash.
pub vacancy_found_again :
    (gen : GenHash) (now later : ℕ) (params : SearchParams) (rs : List SearchVacanciesResult)
    (pm : ParsersManager) (source id : String)
    → IsReady pm
    → (gen params).1 ≡ none
    → later ≤ now + pm.search_cache_ttl
    → later ≤ now + pm.vacancy_cache_ttl
    → Any
        (λ r. (r.parser_name ≡ source) × Any (λ v. (v.seeker ≡ source) × (v.id ≡ id)) r.vacancies)
        rs
    → (pm' : ParsersManager) × (t : Vacancy) × (cache_search_results gen now params rs pm
        ≡ some pm')
      × (get_vacancy_details source id later pm' ≡ some (pm', shown t))
      × (t.id ≡ id)
unfolding cache_search_results
vacancy_found_again gen now later params rs pm source id v g l l' m =
    let hash = (gen params).0 in
    let key_is : (x : Vacancy)
        → (x.seeker ≡ source) × (x.id ≡ id)
        → KeyIs (composite_id source id) x =
      λ x q. rw (q.0, q.1) in
    let (c, e, w) =
      add-IsValid pm.search_cache hash (Models.Any.results (some rs)) pm.search_cache_ttl now
        v.search_valid in
    let (d, e', lead) =
      results-Leads (composite_id source id) hash pm.vacancy_cache_ttl now later rs pm.vacancy_index
        v.index_valid l' (inl (Any-map (λ r p. Any-map key_is r.vacancies p.1) rs m)) in
    let stored : get_item hash later c ≡ some (some (Models.Any.results (some rs))) = ground (
      arith,
      eq_refl hash,
      get_item-add pm.search_cache c hash hash (Models.Any.results (some rs)) pm.search_cache_ttl
          now later v.search_valid e,
    ) in
    let pm' = record pm { search_cache = c; vacancy_index = d } in
    (
      pm',
      pick_result source id rs zero_vacancy,
      ground (arith, g, e, e'),
      shown_from source id hash later rs pm' lead stored,
      pick_result-id source id rs zero_vacancy
          (inl (Any-map (λ r p. (p.0, Any-map (λ v q. q.1) r.vacancies p.1)) rs m)),
    )
