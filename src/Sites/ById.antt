-- ===== src/Sites/ById.antt =====
-- One vacancy by its ID: executeRequest of parser/internal/parser/base_parser.go, and the two
-- GetVacancyByID of hh_parser.go and sj_parser.go, which ask the site without the breaker and the
-- semaphore. net/http and `json.Unmarshal` are parameters.
pub mod Laws
mod Tests
use Prim.Native.String
use text.Mathlib.Text.{◌==◌ as str_eq}
use job_parser.Base.{ℕ, String, Option, none, some, ◌⊎◌, inl, inr, ◌==◌, if◌then◌else◌}
use job_parser.Base.Http.{HttpClient}
use job_parser.Base.Error.{Error, message, wrap}
use job_parser.Sites.{BaseParser, Reply, not_made, not_sent, response}
use job_parser.Sites.Convert.{HhVacancy, SjVacancy}

-- A status, what of the body can be read, and the error of the reading.
abbrev pub Answer : Type 0
Answer = ℕ × String × Option Error

-- `http.NewRequestWithContext` of a GET, and the client's Do and Get.
pub record Transport (R : Type 0) : Type 0 where
  pub new_request : String → Error ⊎ R
  pub send : HttpClient → R → Error ⊎ Answer
  pub get : HttpClient → String → Error ⊎ Answer

module _ {R : Type 0} (net : Transport R) where
  unfoldable pub replied : Error ⊎ Answer → Reply
  replied (inl e) = not_sent e
  replied (inr (code, body, err)) = response code body err

  unfoldable pub sent : HttpClient → Error ⊎ R → Reply
  unfolding replied
  sent client (inl e) = not_made e
  sent client (inr r) = replied (net.send client r)

  -- executeRequest
  unfoldable pub execute_request : BaseParser → String → Reply
  unfolding sent
  execute_request p url = sent p.http_client (net.new_request url)

module _ {T : Type 0} where
  decoded : String → Error ⊎ T → Error ⊎ T
  decoded label (inl e) = inl (wrap label e "")
  decoded label (inr v) = inr v

  unfoldable pub read_body : String → (String → Error ⊎ T) → String → Option Error → Error ⊎ T
  unfolding decoded
  read_body label decode body (some e) = inl (wrap "read response failed: " e "")
  read_body label decode body none = decoded label (decode body)

  unfoldable pub answer_read :
      (ℕ → String) → String → (String → Error ⊎ T) → Error ⊎ Answer → Error ⊎ T
  unfolding read_body
  answer_read print label decode (inl e) = inl (wrap "HTTP request failed: " e "")
  answer_read print label decode (inr (code, body, err)) =
      if code == 200
      then read_body label decode body err
      else inl (message (String.◌++◌ "API returned status " (print code)))

-- GetVacancyByID of HHParser; `print` writes `%d`.
unfoldable pub hh_vacancy_by_id :
    {R : Type 0}
    → Transport R
    → (ℕ → String)
    → (String → Error ⊎ HhVacancy)
    → String
    → BaseParser
    → Error ⊎ HhVacancy
unfolding answer_read
hh_vacancy_by_id net print decode id p =
    if str_eq id ""
    then inl (message "vacancy ID cannot be empty")
    else (answer_read print "parse HH-JSON failed: " decode
        (net.get p.http_client (String.◌++◌ p.base_url (String.◌++◌ "/" id))))

-- GetVacancyByID of SJParser.
unfoldable pub sj_vacancy_by_id :
    {R : Type 0}
    → Transport R
    → (ℕ → String)
    → (String → Error ⊎ SjVacancy)
    → String
    → BaseParser
    → Error ⊎ SjVacancy
unfolding answer_read
sj_vacancy_by_id net print decode id p =
    if str_eq id ""
    then inl (message "vacancy ID cannot be empty")
    else (answer_read print "parse SJ-JSON failed: " decode
        (net.get p.http_client (String.◌++◌ p.base_url (String.◌++◌ "/" id))))
