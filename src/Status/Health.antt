-- ===== src/Status/Health.antt =====
-- One round of health checks: the order in which the replies arrive does not matter.
use mathlib.Core.Path.{subst, ap₂}
use text.Mathlib.Text.{◌==◌ as str_eq}
use job_parser.Base.{
  ℕ, String, ◌≡◌, refl, sym, ◌⊎◌, inl, inr, ◌≢◌, Bool, Option, none, some, List, [], ◌∷◌, arith,
  All, Any, eq_iff, eq_refl, Bool-cases,
}
use job_parser.Base.Dict.{lookup, Lacks, IsDistinct, lookup-insert}
use job_parser.Base.Error.{Error}
use job_parser.Status.{ParserStatus, Stats, CheckResult, check_result, apply_result, check_all}

pub name_cases : (j k : String) → (j ≡ k) ⊎ (j ≢ k)
name_cases j k = elim (Bool-cases (str_eq j k)) [
  | inl e ↦ inl ((eq_iff j k).0 e)
  | inr e ↦ inr (λ p. ground (arith, eq_iff j k))
]

-- What a check result makes of a status.
abbrev pub checked : ℕ → CheckResult → Option ParserStatus → Option ParserStatus
checked now r none = none
checked now r (some s) =
    some (record s { is_healthy = r.healthy; last_check = now; initialized = r.init_done })

pub checked_idem :
    (now : ℕ) (r : CheckResult) (o : Option ParserStatus)
    → checked now r (checked now r o) ≡ checked now r o
checked_idem now r none = refl
checked_idem now r (some s) = refl

hit_for :
    (o : Option ParserStatus) (now : ℕ) (r : CheckResult) (stats : Stats)
    → lookup r.name stats ≡ o
    → lookup r.name (apply_result now r stats) ≡ checked now r o
unfolding apply_result
hit_for none now r stats h = ground (arith, h)
hit_for (some s) now r stats h = ground (
  arith,
  h,
  eq_refl r.name,
  lookup-insert r.name r.name
      (record s { is_healthy = r.healthy; last_check = now; initialized = r.init_done }) stats,
)

pub miss_for :
    (o : Option ParserStatus) (now : ℕ) (r : CheckResult) (name : String) (stats : Stats)
    → lookup r.name stats ≡ o
    → r.name ≢ name
    → lookup name (apply_result now r stats) ≡ lookup name stats
unfolding apply_result
miss_for none now r name stats h n = ground (arith, h)
miss_for (some s) now r name stats h n = ground (
  arith,
  h,
  eq_iff r.name name,
  lookup-insert r.name name
      (record s { is_healthy = r.healthy; last_check = now; initialized = r.init_done }) stats,
)

-- Every result under the name is `r`.
abbrev pub OnlyAs : String → CheckResult → List CheckResult → Type 0
OnlyAs name r = All (λ x. x.name ≡ name → x ≡ r)

abbrev pub IsNamed : String → CheckResult → Type 0
IsNamed name x = x.name ≡ name

pub hit :
    (now : ℕ) (x r : CheckResult) (name : String) (stats : Stats) (o : Option ParserStatus)
    → x.name ≡ name
    → x ≡ r
    → lookup name stats ≡ o
    → lookup name (apply_result now x stats) ≡ checked now r o
hit now x r name stats o e same h =
    subst (λ n. lookup n (apply_result now x stats) ≡ checked now r o) e
      (subst (λ y. lookup x.name (apply_result now x stats) ≡ checked now y o) same
        (hit_for o now x stats (subst (λ n. lookup n stats ≡ o) (sym e) h)))

module _ (client : String → ℕ × Bool × Option Error) where
  check_all-Lacks :
      (name : String) (r : CheckResult) (stats : Stats)
      → Lacks name stats
      → OnlyAs name r (check_all client stats)
  unfolding check_result
  check_all-Lacks name r [] l = tt
  check_all-Lacks name r ((j, s) ∷ stats) (n, l) =
      ((λ e. absurd (n e)), check_all-Lacks name r stats l)

  pub check_all-only :
      (name : String) (s : ParserStatus) (stats : Stats)
      → IsDistinct stats
      → lookup name stats ≡ some s
      → OnlyAs name (check_result name (client s.health_endpoint)) (check_all client stats)
  unfolding lookup check_result
  check_all-only name s [] d h = tt
  check_all-only name s ((j, t) ∷ stats) (l, d) h = elim (name_cases j name) [
    | inl e ↦
        let same : t ≡ s = ground (arith, eq_iff j name) in
        (
          (λ _. ap₂ (λ k (u : ParserStatus). check_result k (client u.health_endpoint)) e same),
          check_all-Lacks name _ stats (subst (λ k. Lacks k stats) e l),
        )
    | inr n ↦ ((λ e. absurd (n e)), check_all-only name s stats d (ground (arith, eq_iff j name)))
  ]

  pub check_all-some :
      (name : String) (s : ParserStatus) (stats : Stats)
      → lookup name stats ≡ some s
      → Any (IsNamed name) (check_all client stats)
  unfolding lookup check_result
  check_all-some name s [] h = cc
  check_all-some name s ((j, t) ∷ stats) h = elim (name_cases j name) [
    | inl e ↦ inl e
    | inr n ↦ inr (check_all-some name s stats (ground (arith, eq_iff j name)))
  ]
