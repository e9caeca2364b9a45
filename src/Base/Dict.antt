-- ===== src/Base/Dict.antt =====
-- Go's `map[string]V` as an association list.
use Prim.Native.String.{String}
use mathlib.Core.Path.{◌≡◌, refl}
use mathlib.Core.Logic.{◌≢◌}
use mathlib.Core.Bool.{Bool}
use mathlib.Core.Option.{Option, none, some}
use mathlib.Core.List.{List, [], ◌∷◌}
use native.Mathlib.Omega.{arith}
use text.Mathlib.Text.{◌==◌}
use text.Mathlib.TextEquality.{eq_iff}
use job_parser.Base.Tests.{if◌then◌else◌}
use job_parser.Base.Lists.{keep}

abbrev pub Dict {ℓ} : Type ℓ → Type ℓ
Dict V = List (String × V)

module _ {ℓ} {V : Type ℓ} where
  -- `v, ok := m[k]`
  unfoldable pub lookup : String → Dict V → Option V
  lookup key [] = none
  lookup key ((name, found) ∷ rest) = if name == key then some found else lookup key rest

  -- `m[k] = v`
  unfoldable pub insert : String → V → Dict V → Dict V
  insert key value [] = (key, value) ∷ []
  insert key value ((name, old) ∷ rest) =
      if name == key then (key, value) ∷ rest else (name, old) ∷ insert key value rest

  pub lookup-insert :
      (key other : String) (value : V) (entries : Dict V)
      → lookup other (insert key value entries)
        ≡ (if key == other then some value else lookup other entries)
  unfolding lookup insert
  lookup-insert key other value [] = refl
  lookup-insert key other value ((name, old) ∷ rest) = ground (
    arith,
    eq_iff name key,
    eq_iff key other,
    eq_iff name other,
    lookup-insert key other value rest,
  )

  -- No entry has the key `k`.
  abbrev pub Lacks : String → Dict V → Type ℓ
  Lacks k [] = Unit
  Lacks k ((j, v) ∷ m) = (j ≢ k) × Lacks k m

  -- No key occurs twice.
  abbrev pub IsDistinct : Dict V → Type ℓ
  IsDistinct [] = Unit
  IsDistinct ((k, v) ∷ m) = Lacks k m × IsDistinct m

  Lacks-insert : (j k : String) (v : V) (m : Dict V) → k ≢ j → Lacks j m → Lacks j (insert k v m)
  unfolding insert
  Lacks-insert j k v [] n h = (n, tt)
  Lacks-insert j k v ((i, w) ∷ m) n (p, h) = ground (arith, Lacks-insert j k v m n h)

  pub insert-IsDistinct :
      (k : String) (v : V) (m : Dict V) → IsDistinct m → IsDistinct (insert k v m)
  unfolding insert
  insert-IsDistinct k v [] d = (tt, tt)
  insert-IsDistinct k v ((i, w) ∷ m) (l, d) =
      ground (arith, eq_iff i k, insert-IsDistinct k v m d, Lacks-insert i k v m)

  Lacks-keep : (k : String) (p : String × V → Bool) (m : Dict V) → Lacks k m → Lacks k (keep p m)
  Lacks-keep k p [] h = tt
  Lacks-keep k p ((j, v) ∷ m) (n, h) = ground (arith, Lacks-keep k p m h)

  pub keep-IsDistinct : (p : String × V → Bool) (m : Dict V) → IsDistinct m → IsDistinct (keep p m)
  keep-IsDistinct p [] d = tt
  keep-IsDistinct p ((k, v) ∷ m) (l, d) = ground (arith, keep-IsDistinct p m d, Lacks-keep k p m l)

  pub lookup_of_Lacks : (k : String) (m : Dict V) → Lacks k m → lookup k m ≡ none
  unfolding lookup
  lookup_of_Lacks k [] h = refl
  lookup_of_Lacks k ((j, v) ∷ m) (n, h) = ground (arith, eq_iff j k, lookup_of_Lacks k m h)

  -- What is found at `k` among the entries that pass `p`.
  abbrev pub found_if : (String × V → Bool) → String → Option V → Option V
  found_if p k none = none
  found_if p k (some v) = if p (k, v) then some v else none

  pub lookup-keep :
      (k : String) (p : String × V → Bool) (m : Dict V)
      → IsDistinct m
      → lookup k (keep p m) ≡ found_if p k (lookup k m)
  unfolding lookup
  lookup-keep k p [] d = refl
  lookup-keep k p ((j, v) ∷ m) (l, d) =
      ground
        (arith, eq_iff j k, lookup-keep k p m d, lookup_of_Lacks j (keep p m) (Lacks-keep j p m l))
