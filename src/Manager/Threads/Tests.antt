-- ===== src/Manager/Threads/Tests.antt =====
-- Two searches at once, a details request and a brief look, on a manager of two parsers.
use text.Mathlib.Text.{◌==◌ as str_eq}
use job_parser.Cache.Items.{Gives}
use job_parser.Base.Dict.{lookup, insert}
use job_parser.Status
use job_parser.Status.{new_statuses, update_status, get_parser_status}
use job_parser.Cache.{add_item_with_ttl, get_item, clean_up_expired, sum32, new_shards}
use job_parser.Base.{
  String, ◌≡◌, refl, is_some, true, false, none, some, List, [], ◌∷◌, Option, arith, get_elem?, inl,
  inr, map, All, Any as Listed,
}
use job_parser.Models.{SearchVacanciesResult}
use job_parser.Manager.State.{Parser, select_parsers_for_search, get_alive_parsers}
use job_parser.Manager.Caching.{try_get_from_cache, cache_details_result}
use job_parser.Manager.Details.{choose_parser}
use job_parser.Manager.Search.{search_one, as_slice, filter_successful_results, Fate, answered, Env}
use job_parser.Manager.Tests.{cook, manager, hh, broken, breaker, params, env as plain}
use job_parser.Manager.Threads.{move, index_entries, searched}
use job_parser.Manager.Threads.System.{
  System, Event, begin_search, begin_details, begin_brief, act, clean_searches, late_update, run,
}
use job_parser.Manager.Threads.Typed.{World, SearchItem, IndexItem, NoItem, Hashes}
use job_parser.Manager.Threads.Reach.{fresh, Allowed, read_types}
use job_parser.Manager.Hash.{KeyData, Digests, gen_hash_from_search_param}
use job_parser.Manager.Threads.Own.{IsFor, searched-IsFor}

-- The digits of a search are its text.
abbrev text_of : List KeyData → String
text_of [] = ""
text_of (k ∷ ks) = k.text

abbrev lib : Digests KeyData
lib = record { marshal = λ k. inr (k ∷ []); sum256 = λ bytes. bytes; encode_to_string = text_of }

abbrev env : Env
env = record plain { gen_hash = gen_hash_from_search_param lib }

abbrev world : World
world = record {
  parsers = hh ∷ broken ∷ [];
  gen_hash = gen_hash_from_search_param lib;
  is_hash = λ k. str_eq k "cook";
}

abbrev start : System
start = fresh 3 2 1 (manager (hh ∷ broken ∷ []) breaker)

-- The second search begins while the first asks, and finds nothing in the cache yet; the third finds
-- what the first has stored.
abbrev events : List Event
events =
    begin_search env params
    ∷ act 0 1
    ∷ act 0 1
    ∷ act 0 2
    ∷ begin_search env params
    ∷ act 1 2
    ∷ act 0 3
    ∷ act 0 4
    ∷ act 0 4
    ∷ begin_brief "HH.ru" "7"
    ∷ act 2 5
    ∷ act 1 5
    ∷ act 0 5
    ∷ act 0 5
    ∷ act 2 6
    ∷ act 2 6
    ∷ begin_details "7" "HH.ru"
    ∷ act 3 7
    ∷ act 3 7
    ∷ act 3 8
    ∷ act 1 8
    ∷ clean_searches 9
    ∷ late_update "HH.ru" false none 9
    ∷ begin_search env params
    ∷ act 4 10
    ∷ []

abbrev final : Option System → System
final none = start
final (some s) = s

abbrev last : System
last = final (run events start)

final-some : (o : Option System) → is_some o ≡ true → o ≡ some (final o)
final-some none e = cc e
final-some (some s) e = refl

ran : run events start ≡ some last
unfolding run new_shards sum32 add_item_with_ttl get_item clean_up_expired select_parsers_for_search
    new_statuses insert lookup Status.get_healthy_parsers get_alive_parsers update_status
    get_parser_status choose_parser search_one filter_successful_results as_slice index_entries
    try_get_from_cache cache_details_result move gen_hash_from_search_param
ran = final-some (run events start) refl

arrived :
    (qs ps : List Parser)
    → ((p : Parser) → Listed (λ q. q ≡ p) ps → Listed (λ q. q ≡ p) qs)
    → All (λ (a : Parser × Fate). Listed (λ q. q ≡ a.0) qs) (map (λ p. (p, answered 3)) ps)
arrived qs [] f = tt
arrived qs (p ∷ ps) f = (f p (inl refl), arrived qs ps (λ x h. f x (inr h)))

hashes : Hashes world env params
unfolding gen_hash_from_search_param
hashes = (refl, refl, λ ps. arrived ps ps (λ p h. h))

-- What is asked for is a vacancy's ID, and a search has its hash; the other events are free.
allowed : All (Allowed world) events
allowed = (
  hashes,
  (
    tt,
    (
      tt,
      (
        tt,
        (
          hashes,
          (
            tt,
            (
              tt,
              (
                tt,
                (
                  tt,
                  (
                    tt,
                    (
                      tt,
                      (
                        tt,
                        (
                          tt,
                          (
                            tt,
                            (
                              tt,
                              (tt, (refl, (tt, (tt, (tt, (tt, (tt, (tt, (hashes, (tt, tt)))))))))),
                            ),
                          ),
                        ),
                      ),
                    ),
                  ),
                ),
              ),
            ),
          ),
        ),
      ),
    ),
  ),
)

abbrev cook_found : SearchVacanciesResult
cook_found = record {
  vacancies = cook ∷ [];
  parser_name = "HH.ru";
  search_hash = "cook";
  error = none;
  duration = 3;
}

read_types_example :
    Gives (SearchItem world) "cook" (get_item "cook" 11 last.manager.search_cache)
    × Gives (IndexItem world) "cook" (get_item "cook" 11 last.manager.vacancy_index)
    × Gives (NoItem world) "cook" (get_item "cook" 11 last.manager.vacancy_details)
read_types_example =
    read_types world 3 2 1 (manager (hh ∷ broken ∷ []) breaker) events last "cook" 11 (omega arith)
      (omega arith) (omega arith) refl allowed ran

fourth : get_elem? last.threads 4 ≡ some (searched "cook" (some (cook_found ∷ [])) none)
unfolding run new_shards sum32 add_item_with_ttl get_item clean_up_expired select_parsers_for_search
    new_statuses insert lookup Status.get_healthy_parsers get_alive_parsers update_status
    get_parser_status choose_parser search_one filter_successful_results as_slice index_entries
    try_get_from_cache cache_details_result move gen_hash_from_search_param
fourth = refl

searched-IsFor_example : All (IsFor world lib params) (cook_found ∷ [])
unfolding gen_hash_from_search_param
searched-IsFor_example =
    searched-IsFor world lib 3 2 1 (manager (hh ∷ broken ∷ []) breaker) events last 4 params "cook"
      (some (cook_found ∷ [])) none (omega arith) (omega arith) (omega arith) refl allowed ran refl
      refl fourth
