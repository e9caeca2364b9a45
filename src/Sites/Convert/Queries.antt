-- ===== src/Sites/Convert/Queries.antt =====
-- The parameters that buildURL of hh_parser.go and of sj_parser.go sets on the URL, as a map; the
-- parsing of the base URL and the encoding are the library net/url.
use text.Mathlib.Text.{◌==◌ as str_eq}
use job_parser.Base.{
  ℕ, zero, suc, ◌≤◌, String, ◌≡◌, refl, ◌||◌, not, some, if◌then◌else◌, arith, dec_lt, eq_iff,
  eq_refl, ap, ◌∙◌,
}
use job_parser.Base.Dict.{Dict, insert, lookup, lookup-insert}
use job_parser.Base.Int.{ℤ, pos, negsuc, is_positive, exceeds}
use job_parser.Models.{SearchParams}
use job_parser.Sites.Convert.{int_text}

-- `query.Set` when the value is not empty.
set_text : String → String → String → Dict String → Dict String
set_text key test value q = if str_eq test "" then q else insert key value q

-- The number of vacancies a page, 20 when it is out of range.
unfoldable pub page_size : ℤ → ℤ
page_size n = if not (is_positive n) || exceeds n 100 then pos 20 else n

set_page : ℤ → ℤ → Dict String → Dict String
set_page test page q = if is_positive test then insert "page" (int_text page) q else q

-- The parameters of HHParser's buildURL.
unfoldable pub hh_query : SearchParams → Dict String → Dict String
unfolding set_text page_size set_page
hh_query params q = set_page params.page params.page (
    insert "per_page" (int_text (page_size params.per_page))
      (set_text "area" params.area params.area (set_text "text" params.text params.text q)))

unfoldable pub convert_area : String → String
convert_area area =
    if str_eq area "1" then "Москва" else if str_eq area "2" then "Санкт-Петербург" else ""

-- n - 1
unfoldable pub before : ℤ → ℤ
before (pos zero) = negsuc 0
before (pos (suc n)) = pos n
before (negsuc n) = negsuc (suc n)

-- The parameters of SJParser's buildURL, whose pages count from 0.
unfoldable pub sj_query : SearchParams → Dict String → Dict String
unfolding set_text set_page convert_area before
sj_query params q = set_page params.page (before params.page) (
    set_text "town" params.area (convert_area params.area)
      (set_text "keyword" params.text params.text q))

page_size-bounded : (n : ℤ) → (k : ℕ) × (1 ≤ k) × (k ≤ 100) × (page_size n ≡ pos k)
unfolding page_size
page_size-bounded (pos zero) = (20, omega arith, omega arith, refl)
page_size-bounded (pos (suc n)) = elim (dec_lt 100 (suc n)) [
  | yes h ↦ (20, omega arith, omega arith, ground arith)
  | no h ↦ (suc n, omega arith, omega arith, ground arith)
]
page_size-bounded (negsuc n) = (20, omega arith, omega arith, refl)

lookup-set_page :
    (t : String) (n m : ℤ) (q : Dict String)
    → lookup "per_page" (set_page n m (insert "per_page" t q)) ≡ some t
unfolding set_page
lookup-set_page t n m q = ground (
  arith,
  eq_iff "page" "per_page",
  eq_refl "per_page",
  lookup-insert "page" "per_page" (int_text m) (insert "per_page" t q),
  lookup-insert "per_page" "per_page" t q,
)

-- Whatever the parameters are, hh.ru is asked for between 1 and 100 vacancies a page.
pub hh_query-page_size :
    (params : SearchParams) (q : Dict String)
    → (k : ℕ) × (1 ≤ k)
      × (k ≤ 100)
      × (lookup "per_page" (hh_query params q) ≡ some (int_text (pos k)))
unfolding hh_query
hh_query-page_size params q =
    let (k, l, h, e) = page_size-bounded params.per_page in
    (
      k,
      l,
      h,
      lookup-set_page (int_text (page_size params.per_page)) params.page params.page
            (set_text "area" params.area params.area (set_text "text" params.text params.text q))
          ∙ ap (λ n. some (int_text n)) e,
    )
