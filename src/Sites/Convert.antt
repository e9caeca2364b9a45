-- ===== src/Sites/Convert.antt =====
-- The two sites' conversions to the common vacancy: convertToUniversal and convertDetails of
-- parser/internal/parser/hh_parser.go and sj_parser.go, over the replies of
-- parser/internal/parser/model. Queries has the parameters that buildURL sets.
pub mod Laws
pub mod Queries
use Prim.Native.String
use text.Mathlib.Text.{◌==◌ as str_eq}
use job_parser.Base.{
  ℕ, suc, zero, String, Bool, true, false, ◌||◌, ◌&&◌, not, Option, none, some, List, [], ◌∷◌, map,
  if◌then◌else◌, leb, ltb,
}
use job_parser.Base.Int.{ℤ, pos, negsuc, is_positive, is_zero, exceeds}
use job_parser.Base.Error.{Error, message}
use job_parser.Models as Models
use job_parser.Models.{
  SearchParams, Vacancy, SearchVacancyDetailesResult, Employer, Area, Salary, zero_details,
  zero_vacancy,
}
use job_parser.Salary.{itoa, format_salary, get_salary_string}

pub record HhVacancy : Type 0 where
  pub id : String
  pub name : String
  pub salary : Salary
  pub employer : Employer
  pub area : Area
  pub url : String
  pub description : String

-- A slice that is nil where the reply has none.
pub record SearchResponse : Type 0 where
  pub items : Option (List HhVacancy)
  pub found : ℤ
  pub pages : ℤ

pub record SearchDetails : Type 0 where
  pub employer : Employer
  pub area : Area
  pub salary : Salary
  pub description : String
  pub name : String
  pub id : String
  pub url : String

pub record Town : Type 0 where
  pub title : String

pub record SjVacancy : Type 0 where
  pub id : ℤ
  pub profession : String
  pub firm_name : String
  pub payment_from : ℤ
  pub payment_to : ℤ
  pub currency : String
  pub town : Town
  pub link : String
  pub vacancy_rich_text : String

pub record SuperJobResponse : Type 0 where
  pub items : List SjVacancy
  pub total : ℤ

-- What the sites' Parse functions return behind `interface{}`.
pub data Parsed : Type 0 where
  nothing : Parsed
  hh_search : SearchResponse → Parsed
  sj_search : SuperJobResponse → Parsed
  found_details : SearchDetails → Parsed

nil_response : String → Error
nil_response name = message (String.◌++◌ "[" (String.◌++◌ name "] searchResponse is nil"))

wrong_type : String → Error
wrong_type name =
    message
      (String.◌++◌ "[Parser name: " (String.◌++◌ name "], wrong data type in the response body\n"))

unfoldable pub from_hh : String → HhVacancy → Vacancy
from_hh name v = record zero_vacancy {
  id = v.id;
  job = v.name;
  company = v.employer.name;
  currency = v.salary.currency;
  salary = some (get_salary_string v.salary.from v.salary.to v.salary.currency);
  area = v.area.name;
  url = v.url;
  seeker = name;
  description = v.description;
}

unfoldable pub hh_items : String → Option (List HhVacancy) → List Vacancy × Option Error
unfolding from_hh
hh_items name none = ([], none)
hh_items name (some vs) = (map (from_hh name) vs, none)

-- convertToUniversal of HHParser.
unfoldable pub hh_convert : String → Parsed → List Vacancy × Option Error
unfolding hh_items nil_response wrong_type
hh_convert name nothing = ([], some (nil_response name))
hh_convert name (hh_search r) = hh_items name r.items
hh_convert name (sj_search r) = ([], some (wrong_type name))
hh_convert name (found_details d) = ([], some (wrong_type name))

-- convertDetails of HHParser.
unfoldable pub hh_convert_details : String → Parsed → SearchVacancyDetailesResult × Option Error
unfolding nil_response wrong_type
hh_convert_details name nothing = (zero_details, some (nil_response name))
hh_convert_details name (hh_search r) = (zero_details, some (wrong_type name))
hh_convert_details name (sj_search r) = (zero_details, some (wrong_type name))
hh_convert_details name (found_details d) = (
  record {
    employer = d.employer;
    area = d.area;
    salary = d.salary;
    description = d.description;
    name = d.name;
    id = d.id;
    url = d.url;
  },
  none,
)

-- `strconv.Itoa`
unfoldable pub int_text : ℤ → String
int_text (pos n) = itoa n
int_text (negsuc n) = String.◌++◌ "-" (itoa (suc n))

-- GetSalaryString of SJVacancy.
unfoldable pub sj_salary_string : SjVacancy → String
unfolding format_salary
sj_salary_string v =
    if is_zero v.payment_from && is_zero v.payment_to
    then "не указана"
    else if is_positive v.payment_from && is_positive v.payment_to
    then format_salary v.payment_from v.payment_to v.currency
    else if is_positive v.payment_from
    then format_salary v.payment_from (pos 0) v.currency
    else format_salary (pos 0) v.payment_to v.currency

unfoldable pub from_sj : String → SjVacancy → Vacancy
unfolding int_text sj_salary_string
from_sj name v = record zero_vacancy {
  id = int_text v.id;
  job = v.profession;
  company = v.firm_name;
  currency = v.currency;
  salary = some (sj_salary_string v);
  area = v.town.title;
  url = v.link;
  seeker = name;
  description = v.vacancy_rich_text;
}

-- convertToUniversal of SJParser; a nil interface fails its type assertion.
unfoldable pub sj_convert : String → Parsed → List Vacancy × Option Error
unfolding from_sj wrong_type
sj_convert name nothing = ([], some (wrong_type name))
sj_convert name (hh_search r) = ([], some (wrong_type name))
sj_convert name (sj_search r) = (map (from_sj name) r.items, none)
sj_convert name (found_details d) = ([], some (wrong_type name))

-- convertDetails of SJParser keeps the description alone.
unfoldable pub sj_convert_details : String → Parsed → SearchVacancyDetailesResult × Option Error
unfolding nil_response wrong_type
sj_convert_details name nothing = (zero_details, some (nil_response name))
sj_convert_details name (hh_search r) = (zero_details, some (wrong_type name))
sj_convert_details name (sj_search r) = (zero_details, some (wrong_type name))
sj_convert_details name (found_details d) =
    (record zero_details { description = d.description }, none)
