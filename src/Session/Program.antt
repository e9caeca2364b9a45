-- ===== src/Session/Program.antt =====
-- A session of the whole program: parser/cmd/parser/main.go from the configuration on.
use job_parser.Base.{
  ℕ, suc, refl, ◌+◌, ◌≤◌, ◌≡◌, String, sym, ◌∙◌, true, false, Option, none, some, List, [], ◌∷◌,
  keep, ◌⊎◌, Any as Listed, arith, inr,
}
use job_parser.Base.Error.{Error}
use job_parser.Manager.State.{
  ParsersManager, or_else, select_parsers_for_search, get_all_parsers_names, get_healthy_parsers,
}
use job_parser.Manager.Search.{is_successful, is_empty}
use job_parser.Manager.Search.Laws.{IsFresh, with_stats, with_stats-IsReady}
use job_parser.Console.Text
use job_parser.Console.Text.{trim_space, is_space}
use job_parser.Console.Print.{Report, Card, print_multi_search_results}
use mathlib.Core.Path.{subst}
use job_parser.Config.{Config, System, load_config}
use job_parser.Start.{App, Answers, init_app}
use job_parser.Start.Laws.{IsComplete, IsUp, init_app-IsUp}
use job_parser.Session.{Outside, Output, report, card, goodbye, run_session, main, after_start}
use job_parser.Session.Laws.{typed, params_of, Holds, results, searched_stats, found_vacancy_shown}
use job_parser.Status.{Stats}
use job_parser.Status.Checker
use job_parser.Status.Checker.{Checker}

inr-inj : (a b : App) → ◌≡◌ {A = Option (Error ⊎ App)} (some (inr a)) (some (inr b)) → a ≡ b
inr-inj a b h = ground (arith, h)

-- The state after the start is that of `IsUp`, whatever app the start has given.
up :
    (sys : System) (cores now : ℕ) (answers : Answers) (config : Config) (app : App)
    → load_config sys ≡ inr config
    → IsComplete config
    → init_app sys cores now answers ≡ some (inr app)
    → IsUp cores app
up sys cores now answers config app l c h =
    let (app', e, u) = init_app-IsUp sys cores now answers config l c in
    subst (IsUp cores) (inr-inj app' app (sym e ∙ h)) u

session_printed :
    (sys : System) (cores now fuel : ℕ) (answers : Answers) (app : App) (outs : ℕ → Outside)
    (lines : List String) (d : Checker) (pm' : ParsersManager) (printed : List Output)
    → init_app sys cores now answers ≡ some (inr app)
    → run_session fuel outs lines app.checker app.manager ≡ some (d, pm', printed)
    → main sys cores now answers fuel outs lines ≡ some printed
unfolding main after_start
session_printed sys cores now fuel answers app outs lines d pm' printed h r = rw (h, r) refl

or_else-some : (xs ys : List String) → is_empty ys ≡ false → is_empty (or_else xs ys) ≡ false
unfolding or_else
or_else-some [] ys h = h
or_else-some (x ∷ xs) ys h = refl

-- There are parsers to ask, whatever is known of their health.
some_selected :
    (now : ℕ) (stats : Stats) (pm : ParsersManager)
    → is_empty (get_all_parsers_names pm) ≡ false
    → is_empty (select_parsers_for_search now (with_stats stats pm)) ≡ false
unfolding select_parsers_for_search get_all_parsers_names
some_selected now stats pm h =
    or_else-some (get_healthy_parsers now (with_stats stats pm)) (get_all_parsers_names pm) h

-- The whole program, from its configuration to the screen: started with a complete configuration, for
-- a user who types a search, then the ID of a vacancy that a site has found and the site's name, and
-- then the choice to exit, it prints what the sites asked have found, a card with that ID, and the
-- farewell. Before each of the three actions the health checker does any of its steps, the first round
-- included, that are possible then; a site that it has found to be ill may not be asked. The vacancy
-- bears the site's name; the ID is not blank; the search has a hash and is in time, its job gets a slot,
-- what it has found can be printed, and the look comes no later than the two TTLs after the search.
pub program_finds :
    (sys : System) (cores now : ℕ) (answers : Answers) (config : Config) (app : App) (n : ℕ)
    (outs : ℕ → Outside) (text count id source : String) (checked between later : Checker)
    (reports : List Report) (total : ℕ)
    → load_config sys ≡ inr config
    → IsComplete config
    → init_app sys cores now answers ≡ some (inr app)
    → Text.is_empty (trim_space id) ≡ false
    → (outs 0).slot ≡ true
    → ((outs 0).env.gen_hash (params_of text count)).1 ≡ none
    → (outs 0).env.ctx_err ≡ none
    → Checker.run (outs 0).checks app.checker ≡ some checked
    → Checker.run (outs 1).checks (record checked {
      stats = searched_stats (outs 0) (params_of text count) (with_stats checked.stats app.manager);
    })
      ≡ some between
    → Checker.run (outs 2).checks between ≡ some later
    → (outs 1).start ≤ (outs 0).finish + app.manager.search_cache_ttl
    → (outs 1).start ≤ (outs 0).finish + app.manager.vacancy_cache_ttl
    → Listed (Holds (trim_space source) (trim_space id)) (
        keep is_successful
          (results (outs 0) (params_of text count) (with_stats checked.stats app.manager)))
    → print_multi_search_results
        (results (outs 0) (params_of text count) (with_stats checked.stats app.manager))
        (params_of text count).per_page
        0
      ≡ some (reports, total)
    → (c : Card) × (main sys cores now answers (suc (suc (suc n))) outs (typed text count id source)
        ≡ some (report reports total ∷ card c ∷ goodbye ∷ []))
      × (c.id ≡ trim_space id)
program_finds sys cores now answers config app n outs text count id source checked between later
      reports total l c h b s g x r r' r'' t t' m p =
    let u = up sys cores now answers config app l c h in
    let start = (outs 0).start in
    let at_search = with_stats checked.stats app.manager in
    let first : Checker.run (outs 0).checks
          (record app.checker { stats = app.manager.parsers_status_manager })
        ≡ some checked =
      subst
        (λ (q : Stats).
          Checker.run (outs 0).checks (record app.checker { stats = q }) ≡ some checked)
        u.same_statuses r in
    let fresh : IsFresh (outs 0).env start (params_of text count) at_search = record {
      ready = with_stats-IsReady checked.stats app.manager u.ready;
      hashed = g;
      in_time = x;
      missed = u.nothing_cached ((outs 0).env.gen_hash (params_of text count)).0 start;
      selected = some_selected start checked.stats app.manager (rw (u.names) refl);
    } in
    let (pm', shown, ran, same) =
      found_vacancy_shown n outs text count id source app.checker checked between later app.manager
        reports total b s (u.let_in start) first fresh r' r'' t t' m p in
    (
      shown,
      session_printed sys cores now (suc (suc (suc n))) answers app outs
          (typed text count id source) later pm' _ h ran,
      same,
    )
