-- ===== src/Status/Checker/Distinct.antt =====
-- No parser gets a second status.
use mathlib.Core.Path.{subst}
use job_parser.Base.{
  ℕ, String, ◌≡◌, Bool, true, false, not, ◌&&◌, ◌==◌, Option, none, some, List, [], ◌∷◌, arith,
  Option-cases, inl, inr, sym, get_elem?, if◌then◌else◌,
}
use job_parser.Base.Dict.{lookup, insert, IsDistinct, insert-IsDistinct}
use job_parser.Base.Error.{Error}
use job_parser.Status.{Stats, ParserStatus, CheckResult, check_all, apply_result}
use job_parser.Status.Laws.{update_status-IsDistinct}
use job_parser.Status.Checker.{
  Checker, Event, begin, arrive, close_results, stop, update, begin_round, take_down, arrive_at,
  close_at, stop_at, step, run,
}

apply_result-none :
    (now : ℕ) (x : CheckResult) (stats : Stats)
    → lookup x.name stats ≡ none
    → apply_result now x stats ≡ stats
unfolding apply_result
apply_result-none now x stats n = rw (n)

apply_result-some :
    (now : ℕ) (x : CheckResult) (stats : Stats) (s : ParserStatus)
    → lookup x.name stats ≡ some s
    → apply_result now x stats
      ≡ insert x.name
          (record s { is_healthy = x.healthy; last_check = now; initialized = x.init_done })
          stats
unfolding apply_result
apply_result-some now x stats s y = rw (y)

apply_result-IsDistinct :
    (now : ℕ) (x : CheckResult) (stats : Stats)
    → IsDistinct stats
    → IsDistinct (apply_result now x stats)
unfolding apply_result
apply_result-IsDistinct now x stats d = elim (Option-cases (lookup x.name stats)) [
  | inl n ↦ subst IsDistinct (sym (apply_result-none now x stats n)) d
  | inr (s, y) ↦
      subst IsDistinct (sym (apply_result-some now x stats s y))
        (insert-IsDistinct x.name _ stats d)
]

-- What a step makes of the statuses.
abbrev Distinct : Option Checker → Type 0
Distinct none = Unit
Distinct (some c) = IsDistinct c.stats

take_down-Distinct :
    (i now : ℕ) (rs : List CheckResult) (o : Option CheckResult) (c : Checker)
    → IsDistinct c.stats
    → Distinct (take_down i now rs o c)
unfolding take_down
take_down-Distinct i now rs none c d = tt
take_down-Distinct i now rs (some r) c d = apply_result-IsDistinct now r c.stats d

arrive_at-Distinct :
    (i now : ℕ) (o : Option (List CheckResult)) (c : Checker)
    → IsDistinct c.stats
    → Distinct (arrive_at i now o c)
unfolding arrive_at
arrive_at-Distinct i now none c d = tt
arrive_at-Distinct i now (some rs) c d = take_down-Distinct i now rs (get_elem? rs i) c d

Distinct-if :
    (b : Bool) (c d : Checker)
    → IsDistinct c.stats
    → Distinct (if b then none else some c) × Distinct (if b then some c else none)
Distinct-if true c d h = (tt, h)
Distinct-if false c d h = (h, tt)

begin-Distinct :
    (client : String → ℕ × Bool × Option Error) (o : Option (List CheckResult)) (c : Checker)
    → IsDistinct c.stats
    → Distinct (begin_round client o c)
unfolding begin_round
begin-Distinct client none c d =
    (Distinct-if c.running (record c { pending = some (check_all client c.stats) }) c d).1
begin-Distinct client (some rs) c d = tt

close-Distinct :
    (o : Option (List CheckResult)) (c : Checker) → IsDistinct c.stats → Distinct (close_at o c)
unfolding close_at
close-Distinct none c d = tt
close-Distinct (some []) c d =
    (Distinct-if (not c.init_complete && (c.interval == 0))
      (record c { pending = none; init_complete = true }) c d).0
close-Distinct (some (r ∷ rs)) c d = tt

stop-Distinct :
    (o : Option (List CheckResult)) (c : Checker) → IsDistinct c.stats → Distinct (stop_at o c)
unfolding stop_at
stop-Distinct none c d =
    (Distinct-if (c.running && c.init_complete) (record c { running = false }) c d).1
stop-Distinct (some rs) c d = tt

step-Distinct : (e : Event) (c : Checker) → IsDistinct c.stats → Distinct (step e c)
unfolding step
step-Distinct (begin client) c d = begin-Distinct client c.pending c d
step-Distinct (arrive i now) c d = arrive_at-Distinct i now c.pending c d
step-Distinct close_results c d = close-Distinct c.pending c d
step-Distinct stop c d = stop-Distinct c.pending c d
step-Distinct (update name success err now) c d =
    update_status-IsDistinct name success err now c.stats d

pub run-Distinct :
    (es : List Event) (c d : Checker) → run es c ≡ some d → IsDistinct c.stats → IsDistinct d.stats
unfolding run
run-Distinct [] c d h x = ground (arith, h, x)
run-Distinct (e ∷ es) c d h x = elim (Option-cases (step e c)) [
  | inl n ↦ ground (arith, n, h)
  | inr (u, n) ↦ run-Distinct es u d (ground (arith, n, h)) (subst Distinct n (step-Distinct e c x))
]
