-- ===== src/Ids/Laws.antt =====
-- The bytes of an identifier can be read off it.
use job_parser.Base.{
  ℕ, zero, suc, ◌+◌, ◌-◌, ◌*◌, ◌/◌, ◌%◌, ◌<◌, ◌≡◌, refl, ap, List, [], ◌∷◌, ◌++◌, take, drop, ◌≤◌,
  length-append, length, ltb, ◌==◌, if◌then◌else◌, All, arith, false, sym, ◌∙◌,
}
use mathlib.Core.List.{append-nil}
use job_parser.Ids.{hex_digit, hex, quick_uuid}

abbrev IsByte : ℕ → Type 0
IsByte b = b < 256

value : ℕ → ℕ
value c = if ltb c b'a' then c - b'0' else c - b'a' + 10

-- The bytes that a text of hexadecimal digits and dashes writes.
pub read_hex : List ℕ → List ℕ
unfolding value
read_hex [] = []
read_hex (c ∷ []) = []
read_hex (c ∷ d ∷ s) =
    let after = read_hex (d ∷ s) in
    let rest = read_hex s in if c == b'-' then after else (value c * 16 + value d) ∷ rest

value-hex_digit : (d : ℕ) → d < 16 → value (hex_digit d) ≡ d
unfolding value hex_digit
value-hex_digit d h = ground arith

hex_digit-ne-dash : (d : ℕ) → d < 16 → (hex_digit d == b'-') ≡ false
unfolding hex_digit
hex_digit-ne-dash d h = ground arith

read_hex-hex : (bs s : List ℕ) → All IsByte bs → read_hex (hex bs ++ s) ≡ bs ++ read_hex s
unfolding hex read_hex
read_hex-hex [] s h = refl
read_hex-hex (b ∷ bs) s (k, h) = ground (
  arith,
  value-hex_digit (b / 16),
  value-hex_digit (b % 16),
  hex_digit-ne-dash (b / 16),
  read_hex-hex bs s h,
)

read_hex-dash : (s : List ℕ) → read_hex (b'-' ∷ s) ≡ read_hex s
unfolding read_hex
read_hex-dash [] = refl
read_hex-dash (c ∷ s) = refl

length-hex : (bs : List ℕ) → length (hex bs) ≡ 2 * length bs
unfolding hex
length-hex [] = refl
length-hex (b ∷ bs) = omega (arith, length-hex bs)

All-take : (n : ℕ) (b : List ℕ) → All IsByte b → All IsByte (take n b)
All-take zero b h = tt
All-take (suc n) [] h = tt
All-take (suc n) (x ∷ b) (k, h) = (k, All-take n b h)

All-drop : (n : ℕ) (b : List ℕ) → All IsByte b → All IsByte (drop n b)
All-drop zero b h = h
All-drop (suc n) [] h = tt
All-drop (suc n) (x ∷ b) (k, h) = All-drop n b h

-- A part of a text up to a dash.
part :
    (from n : ℕ) (b s : List ℕ)
    → All IsByte b
    → read_hex (hex (take n (drop from b)) ++ b'-' ∷ s) ≡ take n (drop from b) ++ read_hex s
part from n b s h =
    read_hex-hex (take n (drop from b)) (b'-' ∷ s) (All-take n (drop from b) (All-drop from b h))
    ∙ ap (◌++◌ (take n (drop from b))) (read_hex-dash s)

last : (n : ℕ) (b : List ℕ) → All IsByte b → read_hex (hex (drop n b)) ≡ drop n b
unfolding read_hex
last n b h =
    sym (ap read_hex (append-nil (hex (drop n b))))
    ∙ read_hex-hex (drop n b) [] (All-drop n b h)
    ∙ append-nil (drop n b)

take-append-drop : (n : ℕ) (b : List ℕ) → take n b ++ drop n b ≡ b
take-append-drop zero b = refl
take-append-drop (suc n) [] = refl
take-append-drop (suc n) (x ∷ b) = ap (◌∷◌ x) (take-append-drop n b)

drop-nil : (n : ℕ) → drop {A = ℕ} n [] ≡ []
drop-nil zero = refl
drop-nil (suc n) = refl

drop-add : (n m : ℕ) (b : List ℕ) → drop (n + m) b ≡ drop m (drop n b)
drop-add zero m b = ap (λ k. drop k b) (omega arith)
drop-add (suc n) m [] = drop-nil (suc n + m) ∙ sym (drop-nil m)
drop-add (suc n) m (x ∷ b) = let e : suc n + m ≡ suc (n + m) = omega arith in rw e (drop-add n m b)

regroup : (n m : ℕ) (b : List ℕ) → take m (drop n b) ++ drop (n + m) b ≡ drop n b
regroup n m b = rw (drop-add n m b) (take-append-drop m (drop n b))

length-take : (n : ℕ) (b : List ℕ) → n ≤ length b → length (take n b) ≡ n
length-take zero b h = refl
length-take (suc n) [] h = absurd (omega (arith, h))
length-take (suc n) (x ∷ b) h = ap suc (length-take n b (omega (arith, h)))

length-drop : (n : ℕ) (b : List ℕ) → length (drop n b) ≡ length b - n
length-drop zero b = omega arith
length-drop (suc n) [] = omega arith
length-drop (suc n) (x ∷ b) = omega (arith, length-drop n b)

-- The random bytes of an identifier can be read off it, so identifiers of different bytes differ; and
-- it has 36 characters, the 32 digits and four dashes. There are sixteen bytes.
pub read_hex-quick_uuid :
    (b : List ℕ)
    → length b ≡ 16
    → All IsByte b
    → (read_hex (quick_uuid b) ≡ b) × (length (quick_uuid b) ≡ 36)
unfolding quick_uuid
read_hex-quick_uuid b l h = (
  rw
      (
        part 0 4 b _ h,
        part 4 2 b _ h,
        part 6 2 b _ h,
        part 8 2 b _ h,
        last 10 b h,
        regroup 8 2 b,
        regroup 6 2 b,
        regroup 4 2 b,
      )
      (regroup 0 4 b),
  omega (
    arith,
    l,
    length-append {0},
    length-hex,
    length-take 4 b,
    length-take 2 (drop 4 b),
    length-take 2 (drop 6 b),
    length-take 2 (drop 8 b),
    length-drop,
  ),
)
