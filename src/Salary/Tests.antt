-- ===== src/Salary/Tests.antt =====
-- The texts of some salaries.
use job_parser.Base.{◌≡◌, refl, dec_lt}
use job_parser.Base.Int.{pos, negsuc}
use job_parser.Salary.{format_number, get_salary_string}
use job_parser.Salary.Digits.{number, number-format_number}

number-format_number_example : number 0 (format_number (pos 1_050_007)) ≡ 1_050_007
number-format_number_example = number-format_number 1_050_007

grouped : format_number (pos 1_050_007) ≡ "1 050 007"
unfolding format_number dec_lt
grouped = refl

both_ends : get_salary_string (pos 100_000) (pos 150_000) "RUR" ≡ "100 000 - 150 000 RUR"
unfolding get_salary_string dec_lt
both_ends = refl

-- A salary whose lower end is negative and whose upper end is 0.
below_zero : get_salary_string (negsuc 4) (pos 0) "RUR" ≡ "до 0 RUR"
unfolding get_salary_string dec_lt
below_zero = refl
