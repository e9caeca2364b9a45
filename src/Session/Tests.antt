-- ===== src/Session/Tests.antt =====
-- A search for cooks, and a look at the one that is found.
use job_parser.Base.{
  zero, suc, Option, is_some, ℕ, ◌+◌, ◌*◌, ◌≡◌, refl, true, none, some, if◌then◌else◌, List, [],
  ◌∷◌, inl, arith, map,
}
use job_parser.Base.Dict.{lookup, insert}
use job_parser.Base.Error.{message}
use job_parser.Models.{Vacancy, zero_vacancy, zero_details}
use job_parser.Status
use job_parser.Status.Checker
use job_parser.Status.Checker.{Checker, begin, arrive, close_results, new_parser_status_manager}
use job_parser.Status.{new_statuses}
use job_parser.Manager.State.{select_parsers_for_search, get_alive_parsers}
use job_parser.Manager.Search.{collect, answered}
use job_parser.Console.Text.{trim_space, is_space}
use job_parser.Console.Input.{read_search_params}
use job_parser.Console.Print.{Report, Card, found, failed, print_multi_search_results}
use text.Mathlib.Text.{◌==◌ as str_eq}
use job_parser.Config.{default_cache_config, default_parsers_config, default_health_check_config}
use job_parser.Config.Tests.{bare, usual, bare_lem}
use job_parser.Sites.Make.{base_config}
use job_parser.Start.{App, Answers}
use job_parser.Start.Laws.{app_of, init_app_lem}
use job_parser.Start.Tests.{complete}
use job_parser.Session.{main, Outside, report, card, goodbye}
use job_parser.Session.Laws.{typed, params_of, searched_stats}
use job_parser.Manager.Search.Laws.{with_stats}
use job_parser.Session.Program.{program_finds}

abbrev cook : Vacancy
cook = record zero_vacancy { id = "7"; job = "cook"; salary = some "100"; seeker = "HH.ru" }

-- HH.ru finds the cook; the other site answers with an error.
abbrev answers : Answers
answers = record {
  search_vacancies =
      λ p params. if str_eq p.name "HH.ru" then (cook ∷ [], none) else ([], some (message "down"));
  search_details = λ p id. (zero_details, none);
}

abbrev app : App
app = app_of 4 100 answers usual complete

-- The first round of health checks finds both sites well.
abbrev first_round : List Checker.Event
first_round = begin (λ endpoint. (1, true, none)) ∷ arrive 1 0 ∷ arrive 0 0 ∷ close_results ∷ []

abbrev before : ℕ → List Checker.Event
before zero = first_round
before (suc i) = []

abbrev outs : ℕ → Outside
outs i = record {
  job_id = "j";
  rounds = 1;
  slot = true;
  env = record { gen_hash = λ p. ("h", none); ctx_err = none; arrive = map (λ p. (p, answered 3)) };
  start = 10 * i + 1;
  finish = 10 * i + 5;
  checks = before i;
}

abbrev or_start : Option Checker → Checker
or_start none = app.checker
or_start (some c) = c

or_start-some : (o : Option Checker) → is_some o ≡ true → o ≡ some (or_start o)
or_start-some none e = cc e
or_start-some (some c) e = refl

abbrev checked : Checker
checked = or_start (Checker.run first_round app.checker)

checked_lem : Checker.run first_round app.checker ≡ some checked
unfolding Checker.run new_parser_status_manager insert base_config complete default_cache_config
    default_parsers_config default_health_check_config new_statuses lookup
checked_lem = or_start-some (Checker.run first_round app.checker) refl

abbrev between : Checker
between = record checked {
  stats = searched_stats (outs 0) (params_of " cook" "5") (with_stats checked.stats app.manager);
}

abbrev shown : List Report
shown =
    record {
      parser_name = "HH.ru";
      duration = 3;
      lines =
          found 1
            (record { number = 1; job = "cook"; salary = "100"; company = ""; url = ""; id = "7" }
              ∷ [])
            none;
    }
    ∷ record { parser_name = "SuperJob.ru"; duration = 3; lines = failed (message "down") }
    ∷ []

program_finds_example :
    (c : Card) × (main bare 4 100 answers 10 outs (typed " cook" "5" " 7 " "HH.ru")
      ≡ some (report shown 1 ∷ card c ∷ goodbye ∷ []))
    × (c.id ≡ "7")
unfolding trim_space is_space select_parsers_for_search new_statuses lookup insert
    Status.get_healthy_parsers get_alive_parsers collect print_multi_search_results
    read_search_params base_config default_cache_config default_parsers_config Checker.run
    new_parser_status_manager complete default_health_check_config Status.check_result
program_finds_example =
    program_finds bare 4 100 answers usual app 7 outs " cook" "5" " 7 " "HH.ru" checked between
      between shown 1 bare_lem complete (init_app_lem bare 4 100 answers usual complete bare_lem)
      refl refl refl refl checked_lem refl refl (omega arith) (omega arith)
      (inl (refl, inl (refl, refl))) refl
