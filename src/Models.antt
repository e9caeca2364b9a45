-- ===== src/Models.antt =====
-- The domain models: parser/internal/domain/models (model.go, vacancy_index.go, search_job.go,
-- search_vacancy_details_job.go). A `*string` is an option; a time and a duration are numbers.
use job_parser.Base.{ℕ, String, Bool, false, Option, none, List}
use job_parser.Base.Int.{ℤ, pos}
use job_parser.Base.Error.{Error}

pub record SearchParams : Type 0 where
  pub text : String
  pub area : String
  pub per_page : ℤ
  pub page : ℤ

pub record Vacancy : Type 0 where
  pub id : String
  pub job : String
  pub company : String
  pub salary : Option String
  pub currency : String
  pub area : String
  pub experience : String
  pub schedule : String
  pub url : String
  pub published_at : ℕ
  pub seeker : String
  pub description : String

-- The zero value, `models.Vacancy{}`.
abbrev pub zero_vacancy : Vacancy
zero_vacancy = record {
  id = "";
  job = "";
  company = "";
  salary = none;
  currency = "";
  area = "";
  experience = "";
  schedule = "";
  url = "";
  published_at = 0;
  seeker = "";
  description = "";
}

pub record SearchVacanciesResult : Type 0 where
  pub vacancies : List Vacancy
  pub parser_name : String
  pub search_hash : String
  pub error : Option Error
  pub duration : ℕ

pub record Employer : Type 0 where
  pub id : String
  pub name : String

pub record Area : Type 0 where
  pub id : String
  pub name : String

pub record Salary : Type 0 where
  pub from : ℤ
  pub to : ℤ
  pub currency : String
  pub gross : Bool

pub record SearchVacancyDetailesResult : Type 0 where
  pub employer : Employer
  pub area : Area
  pub salary : Salary
  pub description : String
  pub name : String
  pub id : String
  pub url : String

-- The zero value, `models.SearchVacancyDetailesResult{}`.
abbrev pub zero_details : SearchVacancyDetailesResult
zero_details = record {
  employer = record { id = ""; name = "" };
  area = record { id = ""; name = "" };
  salary = record { from = pos 0; to = pos 0; currency = ""; gross = false };
  description = "";
  name = "";
  id = "";
  url = "";
}

pub record VacancyIndex : Type 0 where
  pub search_hash : String
  pub parser_name : String
  pub index : ℕ
  pub created_at : ℕ

-- What the program stores behind `interface{}`. A slice is `none` where Go's is nil.
pub data Any : Type 0 where
  results : Option (List SearchVacanciesResult) → Any
  details : SearchVacancyDetailesResult → Any
  index : VacancyIndex → Any
