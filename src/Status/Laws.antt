-- ===== src/Status/Laws.antt =====
-- What an update of a status does to the statuses read afterwards.
use text.Mathlib.Text.{◌==◌ as str_eq}
use job_parser.Base.{
  ℕ, ◌-◌, String, ◌≡◌, refl, Bool, false, ◌&&◌, ◌||◌, Option, none, some, List, [], ◌∷◌, map, arith,
  ltb, if◌then◌else◌, keep, is_some,
}
use job_parser.Base.Dict.{Dict, lookup, IsDistinct, lookup-insert, insert-IsDistinct, lookup-keep}
use job_parser.Base.Error.{Error}
use job_parser.Status.{
  ParserStatus, Stats, five_minutes, update_status, is_fresh, get_healthy_parsers,
}

abbrev pub elem : String → List String → Bool
elem k [] = false
elem k (j ∷ js) = str_eq j k || elem k js

abbrev has_key {ℓ} : {V : Type ℓ} → String → Dict V → Bool
has_key k m = elem k (map (λ e. e.0) m)

abbrev pub is_healthy_at : ℕ → Option ParserStatus → Bool
is_healthy_at now none = false
is_healthy_at now (some s) = is_fresh now s

elem-keys : (k : String) (m : Stats) → elem k (map (λ e. e.0) m) ≡ is_some (lookup k m)
unfolding lookup
elem-keys k [] = refl
elem-keys k ((j, s) ∷ m) = ground (arith, elem-keys k m)

-- GetHealthyParsers names exactly the parsers whose status is healthy and was checked less than five
-- minutes ago. No name has two statuses.
pub elem-get_healthy_parsers :
    (name : String) (now : ℕ) (stats : Stats)
    → IsDistinct stats
    → elem name (get_healthy_parsers now stats) ≡ is_healthy_at now (lookup name stats)
unfolding get_healthy_parsers
elem-get_healthy_parsers name now stats d = ground (
  arith,
  elem-keys name (keep (λ (name, s). is_fresh now s) stats),
  lookup-keep name (λ (name, s). is_fresh now s) stats d,
)

pub update_status-IsDistinct :
    (name : String) (success : Bool) (err : Option Error) (now : ℕ) (stats : Stats)
    → IsDistinct stats
    → IsDistinct (update_status name success err now stats)
unfolding update_status
update_status-IsDistinct name success err now stats d = insert-IsDistinct name _ stats d

healthy_at-update :
    (name other : String) (success : Bool) (err : Option Error) (now later : ℕ) (stats : Stats)
    → is_healthy_at later (lookup other (update_status name success err now stats)) ≡ (
        if str_eq name other
        then success && ltb (later - now) five_minutes
        else is_healthy_at later (lookup other stats))
unfolding update_status
healthy_at-update name other success err now later stats = simp lookup-insert (ground arith)

-- After UpdateStatus the named parser counts as healthy exactly if the update reported a success and
-- five minutes have not passed since, and every other parser counts as before. No name has two
-- statuses.
pub healthy_after_update :
    (name other : String) (success : Bool) (err : Option Error) (now later : ℕ) (stats : Stats)
    → IsDistinct stats
    → elem other (get_healthy_parsers later (update_status name success err now stats)) ≡ (
        if str_eq name other
        then success && ltb (later - now) five_minutes
        else elem other (get_healthy_parsers later stats))
healthy_after_update name other success err now later stats d = ground (
  arith,
  elem-get_healthy_parsers other later (update_status name success err now stats)
      (update_status-IsDistinct name success err now stats d),
  elem-get_healthy_parsers other later stats d,
  healthy_at-update name other success err now later stats,
)
