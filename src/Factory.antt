-- ===== src/Factory.antt =====
-- The factory of parsers: parser/internal/parser/factory.go. A configuration and a parser are any
-- types; each method runs under the mutex, so it is one step.
pub mod Laws
mod Tests
use Prim.Native.String
use job_parser.Base.{String, Option, none, some, List, [], ◌∷◌, ◌⊎◌, inl, inr}
use job_parser.Base.Dict.{Dict, lookup, insert}
use job_parser.Base.Error.{Error, message, wrap}

-- ParserTypeHH and ParserTypeSJ
abbrev pub parser_type_hh : String
parser_type_hh = "hh"

abbrev pub parser_type_sj : String
parser_type_sj = "superjob"

pub record ParserFactory {ℓ κ} (C : Type ℓ) (P : Type κ) : Type (ℓ ⊔ κ) where
  pub constructors : Dict (C → P)
  pub configs : Dict C

-- What the loop of CreateEnabled makes of one type and of those after it.
join {κ} : {P : Type κ} → String → Error ⊎ P → Error ⊎ List P → Error ⊎ List P
join parser_type (inl e) rest =
    inl (wrap (String.◌++◌ "failed to create parser " (String.◌++◌ parser_type ": ")) e "")
join parser_type (inr p) (inl e) = inl e
join parser_type (inr p) (inr ps) = inr (p ∷ ps)

module _ {ℓ κ} {C : Type ℓ} {P : Type κ} where
  abbrev pub new_parser_factory : ParserFactory C P
  new_parser_factory = record { constructors = []; configs = [] }

  unfoldable pub register : String → C → (C → P) → ParserFactory C P → ParserFactory C P
  register parser_type config constructor f = record {
    constructors = insert parser_type constructor f.constructors;
    configs = insert parser_type config f.configs;
  }

  create_with : Option (C → P) → Option C → String → Error ⊎ P
  create_with none config parser_type =
      inl (message (String.◌++◌ "parser type not registered: " parser_type))
  create_with (some constructor) none parser_type =
      inl (message (String.◌++◌ "config not found for parser: " parser_type))
  create_with (some constructor) (some config) parser_type = inr (constructor config)

  unfoldable pub create : String → ParserFactory C P → Error ⊎ P
  unfolding create_with
  create parser_type f =
      create_with (lookup parser_type f.constructors) (lookup parser_type f.configs) parser_type

  -- The first type that fails ends the loop.
  unfoldable pub create_enabled : List String → ParserFactory C P → Error ⊎ List P
  unfolding join
  create_enabled [] f = inr []
  create_enabled (t ∷ ts) f = join t (create t f) (create_enabled ts f)
