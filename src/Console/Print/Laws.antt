-- ===== src/Console/Print/Laws.antt =====
-- What is shown of the results of a search.
use mathlib.Core.Path.{subst}
use job_parser.Base.{
  ℕ, zero, suc, ◌+◌, ◌-◌, ◌≡◌, refl, sym, ◌∙◌, ◌⊎◌, inl, inr, String, true, Option, none, some,
  List, [], ◌∷◌, length, map, All, is_some, arith, ltb, if◌then◌else◌, Option-cases,
}
use job_parser.Base.Int.{pos}
use job_parser.Models.{Vacancy, SearchVacanciesResult}
use job_parser.Sites.Convert.{
  Parsed, nothing, hh_search, sj_search, found_details, HhVacancy, SjVacancy, hh_items, from_hh,
  from_sj, hh_convert, sj_convert,
}
use job_parser.Console.Print.{Row, failed, found, Report, rows, counted, print_multi_search_results}

abbrev HasSalary : Vacancy → Type 0
HasSalary v = is_some v.salary ≡ true

abbrev or_empty : Option String → String
or_empty none = ""
or_empty (some s) = s

-- The first `n` items.
abbrev pub take {ℓ} : {A : Type ℓ} → ℕ → List A → List A
take zero xs = []
take (suc n) [] = []
take (suc n) (x ∷ xs) = x ∷ take n xs

-- The rows of vacancies, numbered from `i + 1` on.
abbrev pub numbered : ℕ → List Vacancy → List Row
numbered i [] = []
numbered i (v ∷ vs) =
    record {
      number = i + 1;
      job = v.job;
      salary = or_empty v.salary;
      company = v.company;
      url = v.url;
      id = v.id;
    }
    ∷ numbered (i + 1) vs

rows_lem :
    (k i m : ℕ) (vs : List Vacancy)
    → m ≡ i + k
    → All HasSalary vs
    → rows (pos m) i vs ≡ some (numbered i (take k vs))
unfolding rows
rows_lem zero i m [] e h = refl
rows_lem zero i m (v ∷ vs) e h = ground (arith, e)
rows_lem (suc k) i m [] e h = refl
rows_lem (suc k) i m (v ∷ vs) e (s, h) =
    ground (arith, e, s, rows_lem k (i + 1) m vs (omega (arith, e)) h)

-- What is to be shown of one result when `n` vacancies of each parser are asked for.
abbrev pub report : ℕ → SearchVacanciesResult → Report
report n r = record {
  parser_name = r.parser_name;
  duration = r.duration;
  lines = elim r.error [
    | some e ↦ failed e
    | none ↦
        let all = length r.vacancies in
        found all (numbered 0 (take n r.vacancies)) (if ltb n all then some (all - n) else none)
  ];
}

abbrev pub total_of : List SearchVacanciesResult → ℕ
total_of [] = 0
total_of (r ∷ rs) = counted r + total_of rs

print_lem :
    (n total : ℕ) (rs : List SearchVacanciesResult)
    → All (λ r. All HasSalary r.vacancies) rs
    → print_multi_search_results rs (pos n) total ≡ some (map (report n) rs, total + total_of rs)
unfolding print_multi_search_results
print_lem n total [] h = ground arith
print_lem n total (r ∷ rs) (s, h) =
    let first = rows_lem n 0 n r.vacancies (omega arith) s in
    let later = print_lem n (total + counted r) rs h in
    elim (Option-cases r.error) [
      | inl e ↦ ground (arith, e, first, later)
      | inr (x, e) ↦ ground (arith, e, later)
    ]

-- A result whose vacancies a site's conversion made, or failed to make.
pub record IsFromSite (r : SearchVacanciesResult) : Type 0 where
  pub site : String
  pub parsed : Parsed
  pub converted :
      (r.vacancies ≡ (hh_convert site parsed).0) ⊎ (r.vacancies ≡ (sj_convert site parsed).0)

hh_salaries : (name : String) (vs : List HhVacancy) → All HasSalary (map (from_hh name) vs)
unfolding from_hh
hh_salaries name [] = omega arith
hh_salaries name (v ∷ vs) = (refl, hh_salaries name vs)

sj_salaries : (name : String) (vs : List SjVacancy) → All HasSalary (map (from_sj name) vs)
unfolding from_sj
sj_salaries name [] = omega arith
sj_salaries name (v ∷ vs) = (refl, sj_salaries name vs)

hh_items-HasSalary :
    (name : String) (o : Option (List HhVacancy)) → All HasSalary (hh_items name o).0
unfolding hh_items
hh_items-HasSalary name none = omega arith
hh_items-HasSalary name (some vs) = hh_salaries name vs

hh_convert-HasSalary : (name : String) (x : Parsed) → All HasSalary (hh_convert name x).0
unfolding hh_convert
hh_convert-HasSalary name nothing = omega arith
hh_convert-HasSalary name (hh_search r) = hh_items-HasSalary name r.items
hh_convert-HasSalary name (sj_search r) = omega arith
hh_convert-HasSalary name (found_details d) = omega arith

sj_convert-HasSalary : (name : String) (x : Parsed) → All HasSalary (sj_convert name x).0
unfolding sj_convert
sj_convert-HasSalary name nothing = omega arith
sj_convert-HasSalary name (hh_search r) = omega arith
sj_convert-HasSalary name (sj_search r) = sj_salaries name r.items
sj_convert-HasSalary name (found_details d) = omega arith

IsFromSite-HasSalary :
    (rs : List SearchVacanciesResult) → All IsFromSite rs → All (λ r. All HasSalary r.vacancies) rs
IsFromSite-HasSalary [] h = h
IsFromSite-HasSalary (r ∷ rs) (f, h) = (
  elim f.converted [
    | inl e ↦ subst (All HasSalary) (sym e) (hh_convert-HasSalary f.site f.parsed)
    | inr e ↦ subst (All HasSalary) (sym e) (sj_convert-HasSalary f.site f.parsed)
  ],
  IsFromSite-HasSalary rs h,
)

-- The results of the two sites are printed without a panic, when `n` vacancies of each are asked for:
-- of each result without an error the first `n` vacancies, numbered from 1, and how many more there
-- are if any; and in all the number of the vacancies of these results.
pub site_results_printed :
    (n : ℕ) (rs : List SearchVacanciesResult)
    → All IsFromSite rs
    → print_multi_search_results rs (pos n) 0 ≡ some (map (report n) rs, total_of rs)
site_results_printed n rs h = print_lem n 0 rs (IsFromSite-HasSalary rs h) ∙ ground arith
