-- ===== src/Ids.antt =====
-- The identifiers of jobs: parser/pkg/id_generator.go. The sixteen bytes that `crypto/rand` reads are
-- an argument, and a text is the list of its code points.
pub mod Laws
mod Tests
use job_parser.Base.{ℕ, ◌+◌, ◌-◌, ◌/◌, ◌%◌, List, [], ◌∷◌, ◌++◌, take, drop, ltb, if◌then◌else◌}

hex_digit : ℕ → ℕ
hex_digit d = if ltb d 10 then b'0' + d else b'a' + (d - 10)

-- `%x` of a slice of bytes.
hex : List ℕ → List ℕ
unfolding hex_digit
hex [] = []
hex (b ∷ bs) = hex_digit (b / 16) ∷ hex_digit (b % 16) ∷ hex bs

-- `b[from:to]`
abbrev slice : ℕ → ℕ → List ℕ → List ℕ
slice from to b = take (to - from) (drop from b)

-- QuickUUID
unfoldable pub quick_uuid : List ℕ → List ℕ
unfolding hex
quick_uuid b =
    hex (slice 0 4 b)
    ++ b'-'
      ∷ (hex (slice 4 6 b)
          ++ b'-' ∷ (hex (slice 6 8 b) ++ b'-' ∷ (hex (slice 8 10 b) ++ b'-' ∷ hex (drop 10 b))))
