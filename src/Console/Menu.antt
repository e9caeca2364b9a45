-- ===== src/Console/Menu.antt =====
-- The menu: Run of parser/cmd/parser/app.go. The manager's answers change nothing of what is read, so
-- a run is the list of what is asked of the manager, in order, with the lines left unread.
use mathlib.Core.Path.{subst}
use text.Mathlib.Text.{◌==◌ as str_eq}
use job_parser.Base.{
  ℕ, zero, suc, ◌<◌, ◌≤◌, ◌≡◌, String, Bool, true, false, Option, none, some, List, [], ◌∷◌, ◌++◌,
  ◌⊎◌, inl, inr, arith, refl, ap, length, if◌then◌else◌, All, Option-cases, Bool-cases,
}
use job_parser.Base.Int.{pos, is_positive}
use job_parser.Base.Error.{Error}
use job_parser.Models.{SearchParams}
use job_parser.Console.Text.{trim_space, is_empty}
use job_parser.Console.Input.{
  read_search_params, get_composite_id_from_input, IsTrimmed, read_search_params_lem,
  get_composite_id_lem, get_composite_id-length,
}

pub data Choice : Type 0 where
  multi : Choice
  brief : Choice
  full : Choice
  exit : Choice
  other : Choice

unfoldable pub choice_of : String → Choice
choice_of s =
    if str_eq s "1"
    then multi
    else if str_eq s "2"
    then brief
    else if str_eq s "3"
    then full
    else if str_eq s "4"
    then exit
    else other

-- What the program does next: a search, one vacancy in brief or in full, the report of a wrong ID or
-- of a wrong choice, or Shutdown.
pub data Action : Type 0 where
  search : SearchParams → Action
  brief_details : String → String → Action
  full_details : String → String → Action
  wrong_input : Error → Action
  wrong_choice : Action
  shut_down : Action

with_id :
    (String → String → Action) → (Error ⊎ String × String) × List String → Action × List String
with_id f (inl e, rest) = (wrong_input e, rest)
with_id f (inr (source, id), rest) = (f source id, rest)

unfoldable pub handle : Choice → List String → Action × List String
unfolding with_id read_search_params get_composite_id_from_input
handle multi lines = (search (read_search_params lines).0, (read_search_params lines).1)
handle brief lines = with_id brief_details (get_composite_id_from_input lines)
handle full lines = with_id full_details (get_composite_id_from_input lines)
handle exit lines = (shut_down, lines)
handle other lines = (wrong_choice, lines)

abbrev pub is_shut_down : Action → Bool
is_shut_down (search p) = false
is_shut_down (brief_details s i) = false
is_shut_down (full_details s i) = false
is_shut_down (wrong_input e) = false
is_shut_down wrong_choice = false
is_shut_down shut_down = true

abbrev before {ℓ} : {A : Type ℓ} → Action → Option (List Action × A) → Option (List Action × A)
before a none = none
before a (some (as_, rest)) = some (a ∷ as_, rest)

-- The loop, with fuel; the end of the input ends it as well as the choice to exit.
unfoldable pub run_app : ℕ → List String → Option (List Action × List String)
unfolding handle choice_of trim_space
run_app zero lines = none
run_app (suc n) [] = some ([], [])
run_app (suc n) (l ∷ ls) =
    let (a, rest) = handle (choice_of (trim_space l)) ls in
    let later = run_app n rest in if is_shut_down a then some (a ∷ [], rest) else before a later

-- Each round reads a line at least.
handle-length : (c : Choice) (lines : List String) → length (handle c lines).1 ≤ length lines
unfolding handle with_id
handle-length multi lines = (read_search_params_lem lines).2
handle-length brief lines = ground (arith, get_composite_id-length lines)
handle-length full lines = ground (arith, get_composite_id-length lines)
handle-length exit lines = omega arith
handle-length other lines = omega arith

-- How a run ends: with Shutdown as its last action, or at the end of the input, without.
pub record IsWhole (actions : List Action) (rest : List String) : Type 0 where
  pub outcome :
      ((before : List Action) × (actions ≡ before ++ shut_down ∷ [])
        × All (λ a. is_shut_down a ≡ false) before)
      ⊎ ((rest ≡ []) × All (λ a. is_shut_down a ≡ false) actions)

IsWhole-before :
    (a : Action) (as_ : List Action) (rest : List String)
    → is_shut_down a ≡ false
    → IsWhole as_ rest
    → IsWhole (a ∷ as_) rest
IsWhole-before a as_ rest n w = elim w.outcome [
  | inl (earlier, e, k) ↦ record { outcome = inl (a ∷ earlier, ap (λ xs. a ∷ xs) e, (n, k)) }
  | inr (e, k) ↦ record { outcome = inr (e, (n, k)) }
]

is_shut_down_lem : (a : Action) → is_shut_down a ≡ true → a ≡ shut_down
is_shut_down_lem a h = ground (arith, h)

-- The menu's loop ends on every input, within as many rounds as there are lines and one. Shutdown is
-- called at most once, as the last action; where it is not, the whole input has been read.
pub run_app-ends :
    (n : ℕ) (lines : List String)
    → length lines < n
    → (actions : List Action) × ((rest : List String) × (run_app n lines ≡ some (actions, rest))
        × IsWhole actions rest)
unfolding run_app
run_app-ends zero lines h = ground arith
run_app-ends (suc n) [] h = ([], ([], refl, record { outcome = inr (refl, omega arith) }))
run_app-ends (suc n) (l ∷ ls) h =
    let a = (handle (choice_of (trim_space l)) ls).0 in
    let rest = (handle (choice_of (trim_space l)) ls).1 in
    let shorter = handle-length (choice_of (trim_space l)) ls in
    elim (Bool-cases (is_shut_down a)) [
      | inl y ↦ (
        a ∷ [],
        (
          rest,
          ground (arith, y),
          record { outcome = inl ([], ap (λ b. b ∷ []) (is_shut_down_lem a y), omega arith) },
        ),
      )
      | inr z ↦
          let (as_, (end, e, w)) = run_app-ends n rest (omega (arith, shorter)) in
          (a ∷ as_, (end, ground (arith, z, e), IsWhole-before a as_ end z w))
    ]

-- What may be asked of the manager: a search with a trimmed text and a positive number of vacancies
-- on the first page, or a vacancy whose trimmed ID is not empty.
abbrev pub IsAsked : Action → Type 0
IsAsked (search p) = IsTrimmed p.text × (is_positive p.per_page ≡ true) × (p.page ≡ pos 0)
IsAsked (brief_details source id) = IsTrimmed source × IsTrimmed id × (is_empty id ≡ false)
IsAsked (full_details source id) = IsTrimmed source × IsTrimmed id × (is_empty id ≡ false)
IsAsked (wrong_input e) = 0 ≤ 0
IsAsked wrong_choice = 0 ≤ 0
IsAsked shut_down = 0 ≤ 0

with_id-IsAsked :
    (f : String → String → Action) (r : (Error ⊎ String × String) × List String)
    → ((source id : String) (rest : List String)
        → r ≡ (inr (source, id), rest)
        → IsAsked (f source id))
    → IsAsked (with_id f r).0
unfolding with_id
with_id-IsAsked f (inl e, rest) h = omega arith
with_id-IsAsked f (inr (source, id), rest) h = h source id rest refl

handle-IsAsked : (c : Choice) (lines : List String) → IsAsked (handle c lines).0
unfolding handle read_search_params
handle-IsAsked multi lines = let (t, p, _) = read_search_params_lem lines in (t, p, refl)
handle-IsAsked brief lines =
    with_id-IsAsked brief_details _ (λ s i r e. get_composite_id_lem lines r s i e)
handle-IsAsked full lines =
    with_id-IsAsked full_details _ (λ s i r e. get_composite_id_lem lines r s i e)
handle-IsAsked exit lines = omega arith
handle-IsAsked other lines = omega arith

the_actions :
    (as_ bs : List Action) (ls ks : List String)
    → ◌≡◌ {A = Option (List Action × List String)} (some (as_, ls)) (some (bs, ks))
    → as_ ≡ bs
the_actions as_ bs ls ks h = ground (arith, h)

-- Whatever is typed: the manager is asked only for searches with a trimmed text and a positive number
-- of vacancies on the first page, and for vacancies with a trimmed ID that is not empty.
run_app-asks :
    (n : ℕ) (lines : List String) (actions : List Action) (rest : List String)
    → run_app n lines ≡ some (actions, rest)
    → All IsAsked actions
unfolding run_app
run_app-asks zero lines actions rest h = ground arith
run_app-asks (suc n) [] actions rest h =
    subst (All IsAsked) (the_actions [] actions [] rest h) (omega arith)
run_app-asks (suc n) (l ∷ ls) actions rest h =
    let a = (handle (choice_of (trim_space l)) ls).0 in
    let next = (handle (choice_of (trim_space l)) ls).1 in
    let asked = handle-IsAsked (choice_of (trim_space l)) ls in
    elim (Bool-cases (is_shut_down a)) [
      | inl y ↦
          subst (All IsAsked) (the_actions (a ∷ []) actions next rest (ground (arith, y, h)))
            (asked, omega arith)
      | inr z ↦ elim (Option-cases (run_app n next)) [
        | inl e ↦ ground (arith, z, e, h)
        | inr ((as_, end), e) ↦
            subst (All IsAsked) (the_actions (a ∷ as_) actions end rest (ground (arith, z, e, h)))
              (asked, run_app-asks n next as_ end e)
      ]
    ]
