-- ===== src/Console/Print.antt =====
-- What the console shows: the end of MultiSearch (multi_search.go), printMultiSearchResults
-- (internal_func.go), the end of GetFullVacancyDetails and printVacancyDetails
-- (search_vacancy_datails.go). A printed text is a record of the values that are put in it.
pub mod Laws
use Prim.Native.Char.{Char, code}
use Prim.Native.String
use job_parser.Base.{
  ℕ, zero, suc, ◌+◌, ◌-◌, String, Bool, true, false, Option, none, some, List, [], ◌∷◌, ◌++◌, ◌⊎◌,
  inl, inr, length, ◌≡◌, refl, ltb, leb, if◌then◌else◌,
}
use job_parser.Base.Int.{ℤ, pos, negsuc}
use job_parser.Base.Panic.{◌>>=◌}
use job_parser.Base.Error.{Error, message}
use job_parser.Base.Text.{bytes, followers}
use job_parser.Models.{Vacancy, SearchVacanciesResult, SearchVacancyDetailesResult, zero_vacancy}
use job_parser.Manager.Caching.{Results}
use job_parser.Sites.Convert.{int_text}
use job_parser.Console.Html.{clean_html}
use job_parser.Console.Text.{is_empty}

-- The line of one vacancy, with its number.
pub record Row : Type 0 where
  pub number : ℕ
  pub job : String
  pub salary : String
  pub company : String
  pub url : String
  pub id : String

-- The lines of one parser's result: its error, or what was found, what is shown of it, and how many
-- are not shown if any.
pub data Lines : Type 0 where
  failed : Error → Lines
  found : ℕ → List Row → Option ℕ → Lines

pub record Report : Type 0 where
  pub parser_name : String
  pub duration : ℕ
  pub lines : Lines

-- `i >= resultsPerPage`, and `n > resultsPerPage` with what is over.
abbrev pub reaches : ℕ → ℤ → Bool
reaches i (pos n) = leb n i
reaches i (negsuc n) = true

abbrev pub over : ℕ → ℤ → Option ℕ
over i (pos n) = if ltb n i then some (i - n) else none
over i (negsuc n) = some (i + n + 1)

-- `*vacancy.Salary`: a nil pointer panics.
row : ℕ → Vacancy → Option Row
row i v = do
  salary ← v.salary
  some (record {
    number = i + 1;
    job = v.job;
    salary = salary;
    company = v.company;
    url = v.url;
    id = v.id;
  })

-- The loop over the vacancies, from the `i`-th on.
unfoldable pub rows : ℤ → ℕ → List Vacancy → Option (List Row)
unfolding row
rows per_page i [] = some []
rows per_page i (v ∷ vs) =
    let later = rows per_page (i + 1) vs in
    if reaches i per_page then some [] else do r ← row i v; rs ← later; some (r ∷ rs)

abbrev lines_of : ℤ → List Vacancy → Option Error → Option Lines
lines_of per_page vs (some e) = some (failed e)
lines_of per_page vs none = do
  rs ← rows per_page 0 vs
  some (found (length vs) rs (over (length vs) per_page))

-- How many vacancies a result adds to the total.
abbrev pub counted : SearchVacanciesResult → ℕ
counted r = elim r.error [ none ↦ length r.vacancies | some e ↦ 0 ]

unfoldable pub print_multi_search_results :
    List SearchVacanciesResult → ℤ → ℕ → Option (List Report × ℕ)
unfolding rows
print_multi_search_results [] per_page total = some ([], total)
print_multi_search_results (r ∷ rs) per_page total = do
  lines ← lines_of per_page r.vacancies r.error
  later ← print_multi_search_results rs per_page (total + counted r)
  some (
    record { parser_name = r.parser_name; duration = r.duration; lines = lines } ∷ later.0,
    later.1,
  )

-- What MultiSearch makes of the answer of searchVacancies: an error, or the results to print.
unfoldable pub check_results : Results × Option Error → Error ⊎ List SearchVacanciesResult
check_results (rs, some e) = inl e
check_results (none, none) = inl (message "ошибка данных")
check_results (some [], none) = inl (message "поиск не дал результатов")
check_results (some (r ∷ rs), none) = inr (r ∷ rs)

replacements : ℕ → String
replacements zero = ""
replacements (suc n) = String.◌++◌ "�" (replacements n)

-- The first `n` bytes of a text, as a `range` over them reads them: a byte of a character that does
-- not fit reads as U+FFFD.
unfoldable pub first_bytes : ℕ → String → String
unfolding followers replacements
first_bytes n String.[] = ""
first_bytes n (String.◌∷◌ c s) =
    let w = followers (code c) + 1 in
    let rest = first_bytes (n - w) s in if leb w n then String.◌∷◌ c rest else replacements n

unfoldable pub shortened : String → String
unfolding bytes first_bytes
shortened text =
    if ltb 1500 (length (bytes text)) then String.◌++◌ (first_bytes 1500 text) "..." else text

pub record Card : Type 0 where
  pub job : String
  pub company : String
  pub salary : String
  pub area : String
  pub url : String
  pub id : String
  pub description : Option String

salary_text : Option String → String
salary_text none = "Salary is nil"
salary_text (some s) = s

-- printVacancyDetails
unfoldable pub print_vacancy_details : Vacancy → Card
unfolding salary_text shortened clean_html
print_vacancy_details v =
    let text = shortened v.description in
    record {
      job = v.job;
      company = v.company;
      salary = salary_text v.salary;
      area = v.area;
      url = v.url;
      id = v.id;
      description = if is_empty text then none else some (clean_html text);
    }

target_vacancy : SearchVacancyDetailesResult → Vacancy
unfolding int_text
target_vacancy d = record zero_vacancy {
  company = d.employer.name;
  job = d.name;
  description = d.description;
  salary = some (int_text d.salary.from);
  area = d.area.name;
  id = d.id;
  url = d.url;
}

-- What GetFullVacancyDetails makes of the answer of executeSearchVacancyDetailes.
unfoldable pub show_full_details : SearchVacancyDetailesResult × Option Error → Error ⊎ Card
unfolding print_vacancy_details target_vacancy
show_full_details (d, some e) = inl e
show_full_details (d, none) = inr (print_vacancy_details (target_vacancy d))

first_bytes_lem : first_bytes 4 "aжж" ≡ "aж�"
unfolding first_bytes
first_bytes_lem = refl
