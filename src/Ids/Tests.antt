-- ===== src/Ids/Tests.antt =====
-- An identifier of the bytes 0xde, 0xad, and fourteen small ones.
use job_parser.Base.{ℕ, ◌≡◌, refl, List, [], ◌∷◌, length, arith}
use job_parser.Base.Text.{bytes}
use job_parser.Ids.{quick_uuid}
use job_parser.Ids.Laws.{read_hex, read_hex-quick_uuid}

abbrev random : List ℕ
random = 0xde ∷ 0xad ∷ 0 ∷ 1 ∷ 2 ∷ 3 ∷ 4 ∷ 5 ∷ 6 ∷ 7 ∷ 8 ∷ 9 ∷ 10 ∷ 11 ∷ 12 ∷ 255 ∷ []

quick_uuid_lem : quick_uuid random ≡ bytes "dead0001-0203-0405-0607-08090a0b0cff"
unfolding quick_uuid bytes
quick_uuid_lem = refl

read_hex-quick_uuid_example :
    (read_hex (quick_uuid random) ≡ random) × (length (quick_uuid random) ≡ 36)
read_hex-quick_uuid_example = read_hex-quick_uuid random refl (omega arith)
