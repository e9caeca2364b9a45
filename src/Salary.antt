-- ===== src/Salary.antt =====
-- The texts of salaries: parser/pkg/format_salary.go, and GetSalaryString of
-- parser/internal/parser/model/model_vacancy_hh.go.
pub mod Digits
mod Tests
use Prim.Native.String
use mathlib.Core.WellFounded.{Acc}
use job_parser.Base.{ℕ, suc, String, ◌/◌, ◌%◌, ◌<◌, Bool, ◌&&◌, ltb, dec_lt, if◌then◌else◌, arith}
use job_parser.Base.Int.{ℤ, pos, negsuc, is_positive, is_zero}
use job_parser.Base.Order.{lt_wf}

unfoldable pub digit : ℕ → String
digit d =
    if ltb d 5
    then (if ltb d 1
        then "0"
        else if ltb d 2
        then "1"
        else if ltb d 3
        then "2"
        else if ltb d 4
        then "3"
        else "4")
    else if ltb d 6
    then "5"
    else if ltb d 7
    then "6"
    else if ltb d 8
    then "7"
    else if ltb d 9
    then "8"
    else "9"

pub tenth : (n : ℕ) → ¬ (n < 10) → n / 10 < n
tenth n h = omega (arith, h)

pub thousandth : (n : ℕ) → ¬ (n < 1000) → n / 1000 < n
thousandth n h = omega (arith, h)

-- `%d` of a number that is not negative.
unfoldable pub itoa_from : (n : ℕ) → Acc ◌<◌ n → String
unfolding digit
itoa_from n (Acc.intro _ below) = elim (dec_lt n 10) [
  | yes h ↦ digit n
  | no h ↦ String.◌++◌ (itoa_from (n / 10) (below (n / 10) (tenth n h))) (digit (n % 10))
]

unfoldable pub itoa : ℕ → String
unfolding itoa_from lt_wf
itoa n = itoa_from n (lt_wf.apply n)

-- `%03d` of a number below a thousand.
unfoldable pub three_digits : ℕ → String
unfolding digit
three_digits n = String.◌++◌ (digit (n / 100)) (String.◌++◌ (digit (n / 10 % 10)) (digit (n % 10)))

-- formatNumber, of a number that is not negative.
unfoldable pub grouped_from : (n : ℕ) → Acc ◌<◌ n → String
unfolding itoa three_digits
grouped_from n (Acc.intro _ below) = elim (dec_lt n 1000) [
  | yes h ↦ itoa n
  | no h ↦
      String.◌++◌ (grouped_from (n / 1000) (below (n / 1000) (thousandth n h)))
        (String.◌++◌ " " (three_digits (n % 1000)))
]

unfoldable pub format_number : ℤ → String
unfolding grouped_from itoa lt_wf
format_number (pos n) = grouped_from n (lt_wf.apply n)
format_number (negsuc n) = String.◌++◌ "-" (itoa (suc n))

unfoldable pub format_salary : ℤ → ℤ → String → String
unfolding format_number
format_salary from to currency =
    if is_positive from && is_positive to
    then String.◌++◌ (format_number from)
        (String.◌++◌ " - " (String.◌++◌ (format_number to) (String.◌++◌ " " currency)))
    else if is_positive from
    then String.◌++◌ "от " (String.◌++◌ (format_number from) (String.◌++◌ " " currency))
    else String.◌++◌ "до " (String.◌++◌ (format_number to) (String.◌++◌ " " currency))

-- GetSalaryString of HHVacancy, by the fields of its salary.
unfoldable pub get_salary_string : ℤ → ℤ → String → String
unfolding format_salary
get_salary_string from to currency =
    if is_zero from && is_zero to
    then "не указана"
    else if is_positive from && is_positive to
    then format_salary from to currency
    else if is_positive from
    then format_salary from (pos 0) currency
    else format_salary (pos 0) to currency
