-- ===== src/Factory/Laws.antt =====
-- What the factory creates.
use text.Mathlib.Text.{◌==◌ as str_eq}
use job_parser.Base.{
  String, ◌≡◌, refl, Option, none, some, List, [], ◌∷◌, ◌⊎◌, inl, inr, map, if◌then◌else◌, All,
  arith,
}
use job_parser.Base.Dict.{lookup, lookup-insert}
use job_parser.Base.Error.{Error}
use job_parser.Factory.{ParserFactory, new_parser_factory, register, create, create_enabled}

-- A registration: a type, its configuration and its constructor.
abbrev pub Entry {ℓ κ} : Type ℓ → Type κ → Type (ℓ ⊔ κ)
Entry C P = String × C × (C → P)

-- The parser that was made, if any.
abbrev pub made {κ} : {P : Type κ} → Error ⊎ P → Option P
made (inl e) = none
made (inr p) = some p

module _ {ℓ κ} {C : Type ℓ} {P : Type κ} where
  -- The factory after some registrations, the last one first.
  abbrev pub registered : List (Entry C P) → ParserFactory C P
  registered [] = new_parser_factory
  registered ((t, config, constructor) ∷ es) = register t config constructor (registered es)

  -- The parser that the last registration of the type makes.
  abbrev pub last_made : String → List (Entry C P) → Option P
  last_made name [] = none
  last_made name ((t, config, constructor) ∷ es) =
      if str_eq t name then some (constructor config) else last_made name es

  register_one :
      (t name : String) (config : C) (constructor : C → P) (f : ParserFactory C P)
      → made (create name (register t config constructor f))
        ≡ (if str_eq t name then some (constructor config) else made (create name f))
  unfolding register create
  register_one t name config constructor f = ground (
    arith,
    lookup-insert t name constructor f.constructors,
    lookup-insert t name config f.configs,
  )

  -- Create makes a type's parser by the configuration and the constructor that were registered for it
  -- last, and fails exactly for the types that were never registered.
  create-registered :
      (name : String) (es : List (Entry C P))
      → made (create name (registered es)) ≡ last_made name es
  unfolding create lookup
  create-registered name [] = refl
  create-registered name ((t, config, constructor) ∷ es) =
      ground
        (arith, register_one t name config constructor (registered es), create-registered name es)

  created :
      (name : String) (es : List (Entry C P)) (p : P)
      → last_made name es ≡ some p
      → create name (registered es) ≡ inr p
  created name es p h = ground (arith, create-registered name es, h)

  -- From registrations made one after another, CreateEnabled makes, in the order of the list, the
  -- parser that each type's last registration gives. Every type of the list has been registered.
  pub create_enabled-registered :
      (es : List (Entry C P)) (pick : String → P) (ts : List String)
      → All (λ t. last_made t es ≡ some (pick t)) ts
      → create_enabled ts (registered es) ≡ inr (map pick ts)
  unfolding create_enabled
  create_enabled-registered es pick [] h = refl
  create_enabled-registered es pick (t ∷ ts) (e, h) =
      ground (arith, created t es (pick t) e, create_enabled-registered es pick ts h)
