-- ===== src/Status/Checker/Rounds.antt =====
-- What a round of health checks leaves.
use mathlib.Core.Path.{subst}
use job_parser.Base.{
  ℕ, zero, suc, ◌-◌, ◌≤◌, String, ◌≡◌, ◌≢◌, Bool, true, false, not, ◌&&◌, ◌==◌, ltb, Option, none,
  some, List, [], ◌∷◌, All, Any as Listed, arith, Option-cases, inl, inr, ◌⊎◌, sym, ◌∙◌, refl, ap,
  get_elem?, if◌then◌else◌, eq_iff,
}
use job_parser.Base.Dict.{lookup, IsDistinct, lookup-insert}
use job_parser.Base.Error.{Error}
use job_parser.Status.{
  Stats, ParserStatus, CheckResult, check_result, check_all, update_status, get_healthy_parsers,
  five_minutes,
}
use job_parser.Status.Laws.{elem, elem-get_healthy_parsers}
use job_parser.Status.Health.{
  OnlyAs, IsNamed, checked, name_cases, hit, miss_for, check_all-only, check_all-some,
}
use job_parser.Status.Checker.{
  Checker, new_checker, Event, begin, arrive, close_results, stop, update, without, begin_round,
  take_down, arrive_at, close_at, stop_at, step, run,
}
use job_parser.Status.Checker.Distinct.{run-Distinct}

-- The results that are still to be taken down.
abbrev left : Option (List CheckResult) → List CheckResult
left none = []
left (some rs) = rs

OnlyAs-get :
    (name : String) (r x : CheckResult) (rs : List CheckResult) (i : ℕ)
    → get_elem? rs i ≡ some x
    → OnlyAs name r rs
    → (x.name ≡ name → x ≡ r) × OnlyAs name r (without i rs)
unfolding without
OnlyAs-get name r x [] i g o = ground (arith, g)
OnlyAs-get name r x (y ∷ rs) zero g (p, o) =
    let same : y ≡ x = ground (arith, g) in (subst (λ z. z.name ≡ name → z ≡ r) same p, o)
OnlyAs-get name r x (y ∷ rs) (suc i) g (p, o) =
    let (q, o') = OnlyAs-get name r x rs i g o in (q, (p, o'))

still-IsNamed :
    (name : String) (x : CheckResult) (rs : List CheckResult) (i : ℕ)
    → get_elem? rs i ≡ some x
    → x.name ≢ name
    → Listed (IsNamed name) rs
    → Listed (IsNamed name) (without i rs)
unfolding without
still-IsNamed name x [] i g n m = elim m [ ]
still-IsNamed name x (y ∷ rs) zero g n (inl e) =
    let same : y ≡ x = ground (arith, g) in absurd (n (subst (λ z. z.name ≡ name) same e))
still-IsNamed name x (y ∷ rs) zero g n (inr m) = m
still-IsNamed name x (y ∷ rs) (suc i) g n (inl e) = inl e
still-IsNamed name x (y ∷ rs) (suc i) g n (inr m) = inr (still-IsNamed name x rs i g n m)

update-miss :
    (j name : String) (success : Bool) (err : Option Error) (now : ℕ) (stats : Stats)
    → j ≢ name
    → lookup name (update_status j success err now stats) ≡ lookup name stats
unfolding update_status
update-miss j name success err now stats n = simp lookup-insert (ground (arith, n, eq_iff j name))

-- A round whose result for `name` is `r`, and whose results are taken down between two times.
module _ (name : String) (r : CheckResult) (from to : ℕ) where
  abbrev IsWritten : Stats → Type 0
  IsWritten stats =
      (t : ℕ) × (s : ParserStatus) × (from ≤ t)
      × (t ≤ to)
      × (lookup name stats ≡ checked t r (some s))

  record InRound (c : Checker) : Type 0 where
    only : OnlyAs name r (left c.pending)
    known : (s : ParserStatus) × (lookup name c.stats ≡ some s)
    so_far : Listed (IsNamed name) (left c.pending) ⊎ IsWritten c.stats

  -- What may come meanwhile: no other round, and no UpdateStatus of this parser.
  abbrev pub IsQuiet : Event → Type 0
  IsQuiet (begin client) = ⊥
  IsQuiet (arrive i now) = (from ≤ now) × (now ≤ to)
  IsQuiet close_results = Unit
  IsQuiet stop = Unit
  IsQuiet (update j success err now) = j ≢ name

  abbrev After : Option Checker → Type 0
  After none = Unit
  After (some c) = InRound c

  After-if :
      (b : Bool) (c : Checker)
      → InRound c
      → After (if b then none else some c) × After (if b then some c else none)
  After-if true c h = (tt, h)
  After-if false c h = (h, tt)

  -- A status that is looked up as before.
  kept :
      (stats other : Stats)
      → lookup name other ≡ lookup name stats
      → IsWritten stats
      → IsWritten other
  kept stats other e (t, s, l, u, w) = (t, s, l, u, e ∙ w)

  take_down-After :
      (i now : ℕ) (rs : List CheckResult) (o : Option CheckResult) (c : Checker)
      → get_elem? rs i ≡ o
      → c.pending ≡ some rs
      → (from ≤ now) × (now ≤ to)
      → InRound c
      → After (take_down i now rs o c)
  unfolding take_down
  take_down-After i now rs none c g p b h = tt
  take_down-After i now rs (some x) c g p b h =
      let only : OnlyAs name r rs = subst (λ q. OnlyAs name r (left q)) p h.only in
      let (one, others) = OnlyAs-get name r x rs i g only in
      elim (name_cases x.name name) [
        | inl e ↦
            let w = hit now x r name c.stats (some h.known.0) e (one e) h.known.1 in
            record { only = others; known = (_, w); so_far = inr (now, h.known.0, b.0, b.1, w) }
        | inr n ↦
            let miss = miss_for (lookup x.name c.stats) now x name c.stats refl n in
            record {
              only = others;
              known = (h.known.0, miss ∙ h.known.1);
              so_far = elim h.so_far [
                | inl m ↦ inl (
                    still-IsNamed name x rs i g n (subst (λ q. Listed (IsNamed name) (left q)) p m))
                | inr w ↦ inr (kept c.stats _ miss w)
              ];
            }
      ]

  arrive_at-After :
      (i now : ℕ) (o : Option (List CheckResult)) (c : Checker)
      → c.pending ≡ o
      → (from ≤ now) × (now ≤ to)
      → InRound c
      → After (arrive_at i now o c)
  unfolding arrive_at
  arrive_at-After i now none c p b h = tt
  arrive_at-After i now (some rs) c p b h = take_down-After i now rs (get_elem? rs i) c refl p b h

  close-After :
      (o : Option (List CheckResult)) (c : Checker)
      → c.pending ≡ o
      → InRound c
      → After (close_at o c)
  unfolding close_at
  close-After none c p h = tt
  close-After (some []) c p h =
      (After-if (not c.init_complete && (c.interval == 0))
        (record c { pending = none; init_complete = true })
        (record {
          only = tt;
          known = h.known;
          so_far = subst (λ q. Listed (IsNamed name) (left q) ⊎ IsWritten c.stats) p h.so_far;
        })).0
  close-After (some (x ∷ rs)) c p h = tt

  stop-After : (o : Option (List CheckResult)) (c : Checker) → InRound c → After (stop_at o c)
  unfolding stop_at
  stop-After none c h =
      (After-if (c.running && c.init_complete) (record c { running = false })
        (record { only = h.only; known = h.known; so_far = h.so_far })).1
  stop-After (some rs) c h = tt

  step-After : (e : Event) (c : Checker) → IsQuiet e → InRound c → After (step e c)
  unfolding step
  step-After (begin client) c q h = absurd q
  step-After (arrive i now) c q h = arrive_at-After i now c.pending c refl q h
  step-After close_results c q h = close-After c.pending c refl h
  step-After stop c q h = stop-After c.pending c h
  step-After (update j success err now) c q h =
      let miss = update-miss j name success err now c.stats q in
      record {
        only = h.only;
        known = (h.known.0, miss ∙ h.known.1);
        so_far = elim h.so_far [ inl m ↦ inl m | inr w ↦ inr (kept c.stats _ miss w) ];
      }

  run-InRound :
      (es : List Event) (c d : Checker) → run es c ≡ some d → All IsQuiet es → InRound c → InRound d
  unfolding run
  run-InRound [] c d h q i = let same : c ≡ d = ground (arith, h) in subst InRound same i
  run-InRound (e ∷ es) c d h (q, qs) i = elim (Option-cases (step e c)) [
    | inl n ↦ ground (arith, n, h)
    | inr (u, n) ↦ run-InRound es u d (ground (arith, n, h)) qs (subst After n (step-After e c q i))
  ]

begin-pending :
    (client : String → ℕ × Bool × Option Error) (o : Option (List CheckResult)) (c b : Checker)
    → begin_round client o c ≡ some b
    → (b.pending ≡ some (check_all client c.stats)) × (b.stats ≡ c.stats)
unfolding begin_round
begin-pending client none c b h = ground (arith, h)
begin-pending client (some rs) c b h = ground (arith, h)

none_left :
    (name : String) (r : CheckResult) (from to : ℕ) (c : Checker)
    → c.pending ≡ none
    → InRound name r from to c
    → IsWritten name r from to c.stats
none_left name r from to c p h =
    elim (subst (λ q. Listed (IsNamed name) (left q) ⊎ IsWritten name r from to c.stats) p
      h.so_far) [ inl m ↦ elim m [ ] | inr w ↦ w ]

-- After any events, a round of health checks that is done decides which parsers are listed as healthy:
-- a known parser is, for five minutes from the time `t` at which its result was taken down, exactly if
-- the client found it healthy without an error in that round, whatever was known of it before. All
-- results are taken down between the times `from` and `to`. Neither another round nor an UpdateStatus
-- of this parser comes meanwhile; those of other parsers may. No name has two statuses at the start.
pub listed_after_round :
    (interval : ℕ) (stats : Stats) (es fs : List Event) (c b d : Checker)
    (client : String → ℕ × Bool × Option Error) (name : String) (s : ParserStatus) (from to now : ℕ)
    → IsDistinct stats
    → run es (new_checker interval stats) ≡ some c
    → lookup name c.stats ≡ some s
    → step (begin client) c ≡ some b
    → All (IsQuiet name (check_result name (client s.health_endpoint)) from to) fs
    → run fs b ≡ some d
    → d.pending ≡ none
    → (t : ℕ) × (from ≤ t)
      × (t ≤ to)
      × (elem name (get_healthy_parsers now d.stats)
          ≡ ((check_result name (client s.health_endpoint)).healthy && ltb (now - t) five_minutes))
unfolding new_checker step
listed_after_round interval stats es fs c b d client name s from to now u h k g q f n =
    let r = check_result name (client s.health_endpoint) in
    let distinct = run-Distinct es (new_checker interval stats) c h u in
    let (p, e) = begin-pending client c.pending c b g in
    let start : InRound name r from to b = record {
      only =
          subst (λ q. OnlyAs name r (left q)) (sym p)
            (check_all-only client name s c.stats distinct k);
      known = (s, ap (lookup name) e ∙ k);
      so_far = inl (
          subst (λ q. Listed (IsNamed name) (left q)) (sym p)
            (check_all-some client name s c.stats k));
    } in
    let (t, s', l, m, w) =
      none_left name r from to d n (run-InRound name r from to fs b d f q start) in
    let after = run-Distinct fs b d f (subst IsDistinct (sym e) distinct) in
    (t, l, m, rw (elem-get_healthy_parsers name now d.stats after, w) refl)
