-- ===== src/Sites/Convert/Laws.antt =====
-- What the conversions keep.
use job_parser.Base.{
  ℕ, String, ◌≡◌, refl, Option, none, some, List, [], ◌∷◌, map, All, ◌+◌, ◌≤◌, Any, Any-map,
  Any-All,
}
use job_parser.Base.Error.{Error}
use job_parser.Models.{SearchParams, Vacancy, SearchVacanciesResult}
use job_parser.Sites.Convert.{
  HhVacancy, SjVacancy, Parsed, hh_search, sj_search, nothing, found_details, from_hh, from_sj,
  hh_items, hh_convert, sj_convert,
}
use job_parser.Manager.State.{ParsersManager}
use job_parser.Manager.Caching.{GenHash, cache_search_results}
use job_parser.Manager.Caching.Laws.{IsReady}
use job_parser.Manager.Details.{shown, get_vacancy_details}
use job_parser.Manager.Details.Index.{vacancy_found_again}

-- The vacancies bear the site's name.
abbrev pub BearsName : String → List Vacancy → Type 0
BearsName name vs = All (λ v. v.seeker ≡ name) vs

All-from_hh : (name : String) (vs : List HhVacancy) → BearsName name (map (from_hh name) vs)
unfolding from_hh
All-from_hh name [] = tt
All-from_hh name (v ∷ vs) = (refl, All-from_hh name vs)

All-from_sj : (name : String) (vs : List SjVacancy) → BearsName name (map (from_sj name) vs)
unfolding from_sj
All-from_sj name [] = tt
All-from_sj name (v ∷ vs) = (refl, All-from_sj name vs)

hh_items-BearsName :
    (name : String) (o : Option (List HhVacancy)) → BearsName name (hh_items name o).0
unfolding hh_items
hh_items-BearsName name none = tt
hh_items-BearsName name (some vs) = All-from_hh name vs

-- The conversion of either site.
pub data Site : Type 0 where
  hh sj : Site

abbrev pub universal : Site → String → Parsed → List Vacancy × Option Error
universal hh = hh_convert
universal sj = sj_convert

universal-BearsName :
    (site : Site) (name : String) (x : Parsed) → BearsName name (universal site name x).0
unfolding hh_convert sj_convert
universal-BearsName hh name nothing = tt
universal-BearsName hh name (hh_search r) = hh_items-BearsName name r.items
universal-BearsName hh name (sj_search r) = tt
universal-BearsName hh name (found_details d) = tt
universal-BearsName sj name nothing = tt
universal-BearsName sj name (hh_search r) = tt
universal-BearsName sj name (sj_search r) = All-from_sj name r.items
universal-BearsName sj name (found_details d) = tt

-- A result that holds what the site `name` returned for some reply, a vacancy with the ID among it.
abbrev pub GivenBy : Site → String → String → SearchVacanciesResult → Type 0
GivenBy site name id r =
    (r.parser_name ≡ name)
    × ((x : Parsed) × (r.vacancies ≡ (universal site name x).0))
    × Any (λ v. v.id ≡ id) r.vacancies

tagged :
    (site : Site) (name id : String) (r : SearchVacanciesResult)
    → GivenBy site name id r
    → (r.parser_name ≡ name) × Any (λ v. (v.seeker ≡ name) × (v.id ≡ id)) r.vacancies
tagged site name id r (n, (x, e), h) = (
  n,
  Any-All (λ v. v.seeker ≡ name) (λ v. v.id ≡ id) r.vacancies
      (rw e (universal-BearsName site name x)) h,
)

-- A vacancy that a site has returned is shown for the site's name and the vacancy's ID, once the
-- results that hold it are stored: either site's conversion marks its vacancies with the name by which
-- they are looked up. The request for it comes no later than the two TTLs after the storing; the
-- caches are ready, and the parameters have a hash.
pub returned_vacancy_found :
    (site : Site) (name id : String) (gen : GenHash) (now later : ℕ) (params : SearchParams)
    (rs : List SearchVacanciesResult) (pm : ParsersManager)
    → IsReady pm
    → (gen params).1 ≡ none
    → later ≤ now + pm.search_cache_ttl
    → later ≤ now + pm.vacancy_cache_ttl
    → Any (GivenBy site name id) rs
    → (pm' : ParsersManager) × (t : Vacancy) × (cache_search_results gen now params rs pm
        ≡ some pm')
      × (get_vacancy_details name id later pm' ≡ some (pm', shown t))
      × (t.id ≡ id)
returned_vacancy_found site name id gen now later params rs pm v g l l' h =
    vacancy_found_again gen now later params rs pm name id v g l l'
      (Any-map (tagged site name id) rs h)
