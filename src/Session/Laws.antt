-- ===== src/Session/Laws.antt =====
-- A search and a look at one of its vacancies, from the lines that are typed to what is printed.
use job_parser.Base.{
  sym, ℕ, suc, ◌+◌, ◌≤◌, ◌≡◌, String, refl, ◌∙◌, true, false, none, some, List, [], ◌∷◌, keep,
  Any as Listed, arith, inr,
}
use job_parser.Breaker.{admit, settle}
use job_parser.Models.{SearchParams, Vacancy, SearchVacanciesResult}
use job_parser.Manager.State.{ParsersManager}
use job_parser.Manager.Search.{as_slice, is_empty, is_successful}
use job_parser.Manager.Search.Laws.{
  IsFresh, gathered, with_stats, with_stats-IsReady, asked, stored,
}
use job_parser.Manager.Worker.{search_vacancies}
use job_parser.Manager.Worker.Laws.{admitted_job, delivered}
use mathlib.Core.Path.{subst}
use job_parser.Status.{Stats}
use job_parser.Status.Checker
use job_parser.Status.Checker.{Checker}
use job_parser.Manager.Caching.{GenHash, cache_search_results}
use job_parser.Manager.Caching.Laws.{IsReady, cache_search_results_lem}
use job_parser.Manager.Details.{shown, get_vacancy_details}
use job_parser.Manager.Details.Laws.{shown-anyway}
use job_parser.Manager.Details.Index.{vacancy_found_again}
use job_parser.Console.Text
use job_parser.Console.Text.{trim_space, is_space}
use job_parser.Console.Input.{read_search_params, get_composite_id_from_input}
use job_parser.Console.Menu.{
  Action, search, brief_details, shut_down, is_shut_down, Choice, multi, brief, exit, choice_of,
  handle, run_app,
}
use job_parser.Console.Print.{
  Report, Card, check_results, print_multi_search_results, print_vacancy_details,
}
use job_parser.Session.{
  Outside, Output, reported, brief_output, report, card, goodbye, multi_search, brief_look, perform,
  perform_all, run_session, health_checked,
}

-- "1", a text, a count; "2", an ID, a source; "4".
abbrev pub typed : (text count id source : String) → List String
typed text count id source = "1" ∷ text ∷ count ∷ "2" ∷ id ∷ source ∷ "4" ∷ []

abbrev pub params_of : String → String → SearchParams
params_of text count = (read_search_params (text ∷ count ∷ [])).0

chosen_1 : choice_of (trim_space "1") ≡ multi
unfolding choice_of trim_space is_space
chosen_1 = refl

chosen_2 : choice_of (trim_space "2") ≡ brief
unfolding choice_of trim_space is_space
chosen_2 = refl

chosen_4 : choice_of (trim_space "4") ≡ exit
unfolding choice_of trim_space is_space
chosen_4 = refl

-- One round of the menu.
next_round :
    (n : ℕ) (l : String) (ls rest end : List String) (c : Choice) (a : Action) (as_ : List Action)
    → choice_of (trim_space l) ≡ c
    → handle c ls ≡ (a, rest)
    → is_shut_down a ≡ false
    → run_app n rest ≡ some (as_, end)
    → run_app (suc n) (l ∷ ls) ≡ some (a ∷ as_, end)
unfolding run_app
next_round n l ls rest end c a as_ e h k r = rw (e, h, k, r)

last_round :
    (n : ℕ) (l : String) (ls : List String)
    → choice_of (trim_space l) ≡ exit
    → run_app (suc n) (l ∷ ls) ≡ some (shut_down ∷ [], ls)
unfolding run_app handle
last_round n l ls e = rw (e)

handle-brief :
    (id source : String) (rest : List String)
    → Text.is_empty (trim_space id) ≡ false
    → handle brief (id ∷ source ∷ rest) ≡ (brief_details (trim_space source) (trim_space id), rest)
unfolding handle get_composite_id_from_input
handle-brief id source rest h = ground (arith, h)

typed_lem :
    (n : ℕ) (text count id source : String)
    → Text.is_empty (trim_space id) ≡ false
    → run_app (suc (suc (suc n))) (typed text count id source)
      ≡ some (
        search (params_of text count)
            ∷ brief_details (trim_space source) (trim_space id)
            ∷ shut_down
            ∷ [],
        [],
      )
unfolding handle
typed_lem n text count id source h =
    next_round (suc (suc n)) "1" _ _ [] multi _ _ chosen_1 refl refl (
      next_round (suc n) "2" _ _ [] brief _ _ chosen_2 (handle-brief id source ("4" ∷ []) h) refl
        (last_round n "4" [] chosen_4))

listed_some :
    (P : SearchVacanciesResult → Type 0) (rs : List SearchVacanciesResult)
    → Listed P rs
    → is_empty rs ≡ false
listed_some P [] h = absurd h
listed_some P (r ∷ rs) h = refl

checked :
    (rs : List SearchVacanciesResult)
    → is_empty (keep is_successful rs) ≡ false
    → check_results (as_slice rs, none) ≡ inr rs
unfolding check_results as_slice
checked [] h = cc h
checked (r ∷ rs) h = refl

-- What a vacancy is looked up by.
abbrev pub Holds : String → String → SearchVacanciesResult → Type 0
Holds source id r =
    (r.parser_name ≡ source)
    × Listed (λ (v : Vacancy). (v.seeker ≡ source) × (v.id ≡ id)) r.vacancies

-- The first action of the session.
module _ (out : Outside) (params : SearchParams) (pm : ParsersManager) where
  abbrev pub searched_stats : Stats
  searched_stats = (gathered out.env out.start out.finish params pm).0

  abbrev pub results : List SearchVacanciesResult
  results = (gathered out.env out.start out.finish params pm).1

  search_shown :
      (pm' : ParsersManager) (reports : List Report) (total : ℕ)
      → out.slot ≡ true
      → search_vacancies out.job_id out.rounds true out.env out.start out.finish params pm
        ≡ some (pm', as_slice results, none)
      → is_empty (keep is_successful results) ≡ false
      → print_multi_search_results results params.per_page 0 ≡ some (reports, total)
      → multi_search out params pm ≡ some (pm', report reports total)
  unfolding multi_search reported
  search_shown pm' reports total s h n p = ground (arith, s, h, checked results n, p)

look_shown :
    (out : Outside) (source id : String) (pm : ParsersManager) (v : Vacancy)
    → get_vacancy_details source id out.start pm ≡ some (pm, shown v)
    → brief_look out source id pm ≡ some (pm, card (print_vacancy_details v))
unfolding brief_look brief_output
look_shown out source id pm v h = rw (h)

print-id : (v : Vacancy) → (print_vacancy_details v).id ≡ v.id
unfolding print_vacancy_details
print-id v = refl

checked_lem :
    (es : List Checker.Event) (c d : Checker) (pm : ParsersManager)
    → Checker.run es (record c { stats = pm.parsers_status_manager }) ≡ some d
    → health_checked es c pm ≡ some (d, with_stats d.stats pm)
unfolding health_checked
checked_lem es c d pm h = rw (h)

performed :
    (outs : ℕ → Outside) (params : SearchParams) (source id : String) (checker c c' d : Checker)
    (pm at_search found at_look : ParsersManager) (found_all shown_card : Output)
    → health_checked (outs 0).checks checker pm ≡ some (c, at_search)
    → multi_search (outs 0) params at_search ≡ some (found, found_all)
    → health_checked (outs 1).checks c found ≡ some (c', at_look)
    → brief_look (outs 1) source id at_look ≡ some (at_look, shown_card)
    → health_checked (outs 2).checks c' at_look ≡ some (d, with_stats d.stats at_look)
    → perform_all outs 0 (search params ∷ brief_details source id ∷ shut_down ∷ []) checker pm
      ≡ some (d, with_stats d.stats at_look, found_all ∷ shown_card ∷ goodbye ∷ [])
unfolding perform_all perform
performed outs params source id checker c c' d pm s f l found_all shown_card h m h' k h'' =
    rw (h, m, h', k, h'') refl

-- The storing of results leaves the statuses.
stored-stats :
    (gen : GenHash) (now : ℕ) (params : SearchParams) (rs : List SearchVacanciesResult)
    (pm pm' : ParsersManager)
    → IsReady pm
    → (gen params).1 ≡ none
    → cache_search_results gen now params rs pm ≡ some pm'
    → pm'.parsers_status_manager ≡ pm.parsers_status_manager
stored-stats gen now params rs pm pm' v g h =
    let (c, d, e, k, w) =
      cache_search_results_lem gen now params rs pm (gen params).0 v (ground (arith, g)) in
    ground (arith, sym k ∙ h)

-- What a search has shown can be looked at: who types a search, then the ID of a vacancy that a parser
-- has found and the parser's name, and then the choice to exit, is shown what all parsers asked have
-- found, a card with that ID, and the farewell, whatever the health checker does before and between
-- these actions. The vacancy bears the parser's name; the ID is not blank; the search is fresh, its job
-- gets a slot and passes the breaker, what it has found can be printed, and the look comes no later
-- than the two TTLs after the search.
pub found_vacancy_shown :
    (n : ℕ) (outs : ℕ → Outside) (text count id source : String) (checker c c' d : Checker)
    (pm : ParsersManager) (reports : List Report) (total : ℕ)
    → Text.is_empty (trim_space id) ≡ false
    → (outs 0).slot ≡ true
    → (admit (outs 0).start pm.circuit_breaker).1 ≡ none
    → Checker.run (outs 0).checks (record checker { stats = pm.parsers_status_manager }) ≡ some c
    → IsFresh (outs 0).env (outs 0).start (params_of text count) (with_stats c.stats pm)
    → Checker.run (outs 1).checks (record c {
      stats = searched_stats (outs 0) (params_of text count) (with_stats c.stats pm);
    })
      ≡ some c'
    → Checker.run (outs 2).checks c' ≡ some d
    → (outs 1).start ≤ (outs 0).finish + pm.search_cache_ttl
    → (outs 1).start ≤ (outs 0).finish + pm.vacancy_cache_ttl
    → Listed
        (Holds (trim_space source) (trim_space id))
        (keep is_successful (results (outs 0) (params_of text count) (with_stats c.stats pm)))
    → print_multi_search_results
        (results (outs 0) (params_of text count) (with_stats c.stats pm))
        (params_of text count).per_page
        0
      ≡ some (reports, total)
    → (pm' : ParsersManager) × (k : Card) × (run_session
          (suc (suc (suc n)))
          outs
          (typed text count id source)
          checker
          pm
        ≡ some (d, pm', report reports total ∷ card k ∷ goodbye ∷ []))
      × (k.id ≡ trim_space id)
unfolding run_session
found_vacancy_shown n outs text count id source checker c c' d pm reports total b s a u f u' u'' l
      l' m p =
    let out = outs 0 in
    let params = params_of text count in
    let at_search = with_stats c.stats pm in
    let (stats, rs) = gathered out.env out.start out.finish params at_search in
    let some_good = listed_some _ (keep is_successful rs) m in
    let ready = with_stats-IsReady stats at_search f.ready in
    let (pm', v, kept, looked, same) =
      vacancy_found_again out.env.gen_hash out.finish (outs 1).start params (keep is_successful rs)
        (with_stats stats at_search) (trim_space source) (trim_space id) ready f.hashed l l' m in
    let same_stats =
      stored-stats out.env.gen_hash out.finish params (keep is_successful rs)
        (with_stats stats at_search) pm' ready f.hashed kept in
    let ran =
      asked out.env out.start out.finish params at_search f
      ∙ stored out.env out.finish params rs (with_stats stats at_search) pm' some_good kept in
    let cb = settle out.finish none (admit out.start pm.circuit_breaker).0 in
    let found = record pm' { circuit_breaker = cb } in
    let at_look = with_stats c'.stats found in
    let answered =
      delivered out.job_id out.rounds out.env out.start out.finish params at_search
        (admitted_job out.env out.start out.finish params at_search pm' (as_slice rs) a ran) in
    (
      with_stats d.stats at_look,
      print_vacancy_details v,
      rw (typed_lem n text count id source b) (
          performed outs params (trim_space source) (trim_space id) checker c c' d pm at_search
            found at_look _ _ (checked_lem (outs 0).checks checker c pm u)
            (search_shown out params at_search found reports total s answered some_good p)
            (checked_lem (outs 1).checks c c' found (
              subst (λ (q : Stats). Checker.run (outs 1).checks (record c { stats = q }) ≡ some c')
                (sym same_stats) u'))
            (look_shown (outs 1) (trim_space source) (trim_space id) at_look v (
              shown-anyway (trim_space source) (trim_space id) pm' v c'.stats cb (outs 1).start
                looked))
            (checked_lem (outs 2).checks c' d at_look u'')),
      print-id v ∙ same,
    )
