-- ===== src/Base/Text.antt =====
-- Texts as the program reads them: by bytes in a hash, by substrings in a test.
use Prim.Native.Char.{code}
use Prim.Native.Nat.{ℕ, zero, suc, ◌+◌, ◌/◌, ◌%◌, ◌^◌}
use Prim.Native.String.{String}
use mathlib.Core.Bool.{Bool}
use mathlib.Core.Path.{◌≡◌, refl}
use mathlib.Core.List.{List, [], ◌∷◌, ◌++◌}
use text.Mathlib.Text.{find?}
use job_parser.Base.Tests.{ltb, is_some, if◌then◌else◌}

-- How many bytes follow the first one of a code point in UTF-8.
unfoldable pub followers : ℕ → ℕ
followers c = if ltb c 0x80 then 0 else if ltb c 0x800 then 1 else if ltb c 0x10000 then 2 else 3

-- The mark of a first byte that so many others follow.
first_mark : ℕ → ℕ
first_mark zero = 0
first_mark (suc zero) = 0xc0
first_mark (suc (suc zero)) = 0xe0
first_mark (suc (suc (suc k))) = 0xf0

-- The last `k` bytes, of six bits each.
last_bytes : ℕ → ℕ → List ℕ
last_bytes zero c = []
last_bytes (suc k) c = (0x80 + c / 64 ^ k % 64) ∷ last_bytes k c

encoded : ℕ → ℕ → List ℕ
unfolding first_mark last_bytes
encoded k c = (first_mark k + c / 64 ^ k) ∷ last_bytes k c

-- `[]byte(s)`
unfoldable pub bytes : String → List ℕ
unfolding encoded followers
bytes String.[] = []
bytes (String.◌∷◌ c s) = encoded (followers (code c)) (code c) ++ bytes s

-- `strings.Contains`
abbrev pub contains : String → String → Bool
contains s t = is_some (find? s t)

bytes_lem : bytes "aж世🙂" ≡ 97 ∷ 208 ∷ 182 ∷ 228 ∷ 184 ∷ 150 ∷ 240 ∷ 159 ∷ 153 ∷ 130 ∷ []
unfolding bytes
bytes_lem = refl
