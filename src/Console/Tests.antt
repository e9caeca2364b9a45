-- ===== src/Console/Tests.antt =====
-- The console's theorems on concrete inputs.
use job_parser.Base.{String, ◌≡◌, refl, none, some, List, [], ◌∷◌, inr, map, arith}
use job_parser.Base.Int.{pos}
use job_parser.Models.{SearchVacanciesResult}
use job_parser.Sites.Convert.{SjVacancy, Parsed, sj_search, sj_convert}
use job_parser.Console.Text.{is_space}
use job_parser.Console.Menu.{
  Action, search, brief_details, wrong_choice, shut_down, run_app, IsWhole, run_app-ends,
}
use job_parser.Console.Print.{print_multi_search_results}
use job_parser.Console.Print.Laws.{report, total_of, site_results_printed}

abbrev typed : List String
typed = "1" ∷ " cook " ∷ "5" ∷ "7" ∷ "2" ∷ "42" ∷ "HH.ru" ∷ "4" ∷ "1" ∷ []

abbrev asked : List Action
asked =
    search (record { text = "cook"; area = ""; per_page = pos 5; page = pos 0 })
    ∷ wrong_choice
    ∷ brief_details "HH.ru" "42"
    ∷ shut_down
    ∷ []

asked_lem : run_app 10 typed ≡ some (asked, "1" ∷ [])
unfolding run_app is_space
asked_lem = refl

run_app-ends_example :
    (actions : List Action) × ((rest : List String) × (run_app 10 typed ≡ some (actions, rest))
      × IsWhole actions rest)
run_app-ends_example = run_app-ends 10 typed (omega arith)

abbrev cook : SjVacancy
cook = record {
  id = pos 7;
  profession = "cook";
  firm_name = "f";
  payment_from = pos 0;
  payment_to = pos 0;
  currency = "rub";
  town = record { title = "t" };
  link = "l";
  vacancy_rich_text = "";
}

abbrev answer : Parsed
answer = sj_search (record { items = cook ∷ cook ∷ []; total = pos 2 })

abbrev found_two : SearchVacanciesResult
found_two = record {
  vacancies = (sj_convert "SuperJob.ru" answer).0;
  parser_name = "SuperJob.ru";
  search_hash = "h";
  error = none;
  duration = 3;
}

site_results_printed_example :
    print_multi_search_results (found_two ∷ []) (pos 1) 0
    ≡ some (map (report 1) (found_two ∷ []), total_of (found_two ∷ []))
site_results_printed_example =
    site_results_printed 1 (found_two ∷ [])
      (record { site = "SuperJob.ru"; parsed = answer; converted = inr refl }, omega arith)
