-- ===== src/Console/Text.antt =====
-- What the console's code uses of Go's packages strings and strconv: TrimSpace, ReplaceAll, Atoi.
use Prim.Native.Char.{Char, code}
use Prim.Native.String
use text.Mathlib.TextLemmas.{nil≢cons, tail-eq_of_cons-eq}
use job_parser.Base.{
  ℕ, zero, suc, ◌+◌, ◌-◌, ◌*◌, ◌^◌, ◌≡◌, String, Bool, true, false, ◌&&◌, ◌||◌, Option, none, some,
  refl, ap, ◌∙◌, arith, leb, ltb, ◌==◌, if◌then◌else◌, Bool-cases, inl, inr,
}
use job_parser.Base.Int.{ℤ, pos, negsuc}

abbrev pub is : ℕ → Char → Bool
is n c = code c == n

-- unicode.IsSpace
unfoldable pub is_space : Char → Bool
is_space c =
    let n = code c in
    leb 9 n && leb n 13
    || (n == 32)
    || (n == 0x85)
    || (n == 0xa0)
    || (n == 0x1680)
    || leb 0x2000 n && leb n 0x200a
    || (n == 0x2028)
    || (n == 0x2029)
    || (n == 0x202f)
    || (n == 0x205f)
    || (n == 0x3000)

abbrev pub is_empty : String → Bool
is_empty String.[] = true
is_empty (String.◌∷◌ c s) = false

unfoldable pub trim_left : String → String
trim_left String.[] = ""
trim_left (String.◌∷◌ c s) = let rest = trim_left s in if is_space c then rest else String.◌∷◌ c s

unfoldable pub trim_right : String → String
trim_right String.[] = ""
trim_right (String.◌∷◌ c s) =
    let rest = trim_right s in if is_space c && is_empty rest then "" else String.◌∷◌ c rest

unfoldable pub trim_space : String → String
unfolding trim_left trim_right
trim_space s = trim_left (trim_right s)

abbrev pub starts_with : String → String → Bool
starts_with String.[] s = true
starts_with (String.◌∷◌ c p) String.[] = false
starts_with (String.◌∷◌ c p) (String.◌∷◌ d s) = (code c == code d) && starts_with p s

-- ReplaceAll, from a place where `skip` characters of a match are still to be left out; `more` is how
-- many characters the text sought has after its first.
unfoldable pub replace_from : String → ℕ → String → ℕ → String → String
replace_from old more new skip String.[] = ""
replace_from old more new (suc skip) (String.◌∷◌ c s) = replace_from old more new skip s
replace_from old more new zero (String.◌∷◌ c s) = elim (starts_with old (String.◌∷◌ c s)) [
  | true ↦ String.◌++◌ new (replace_from old more new more s)
  | false ↦ String.◌∷◌ c (replace_from old more new zero s)
]

-- The value of a digit.
abbrev pub digit_value : Char → Option ℕ
digit_value c = if leb 48 (code c) && leb (code c) 57 then some (code c - 48) else none

abbrev with_digit : Option ℕ → Option ℕ → Option ℕ
with_digit none d = none
with_digit (some n) none = none
with_digit (some n) (some d) = some (10 * n + d)

unfoldable pub digits_from : Option ℕ → String → Option ℕ
digits_from acc String.[] = acc
digits_from acc (String.◌∷◌ c s) = digits_from (with_digit acc (digit_value c)) s

unfoldable pub digits : String → Option ℕ
unfolding digits_from
digits String.[] = none
digits (String.◌∷◌ c s) = digits_from (some 0) (String.◌∷◌ c s)

in_range : Option ℕ → Option ℤ
in_range none = none
in_range (some n) = if ltb n (2 ^ 63) then some (pos n) else none

negated : Option ℕ → Option ℤ
negated none = none
negated (some zero) = some (pos 0)
negated (some (suc n)) = if ltb n (2 ^ 63) then some (negsuc n) else none

-- `strconv.Atoi`, for an `int` of 64 bits: `none` is an error.
unfoldable pub atoi : String → Option ℤ
unfolding digits in_range negated
atoi String.[] = none
atoi (String.◌∷◌ c s) =
    if is 43 c
    then in_range (digits s)
    else if is 45 c
    then negated (digits s)
    else in_range (digits (String.◌∷◌ c s))

trim_space_lem : trim_space " \t a b  \n" ≡ "a b"
unfolding trim_space is_space
trim_space_lem = refl

replace_from_lem : replace_from "<p>" 2 "-" 0 "a<p>b<<p><p" ≡ "a-b<-<p"
unfolding replace_from
replace_from_lem = refl

atoi_lem : atoi "-120" ≡ some (negsuc 119)
unfolding atoi
atoi_lem = refl

cons-tail :
    (b : Bool) (c : Char) (r s : String)
    → (if b then "" else String.◌∷◌ c r) ≡ String.◌∷◌ c s
    → r ≡ s
cons-tail true c r s h = absurd (nil≢cons h)
cons-tail false c r s h = tail-eq_of_cons-eq h

trim_right-tail :
    (c : Char) (s : String) → trim_right (String.◌∷◌ c s) ≡ String.◌∷◌ c s → trim_right s ≡ s
unfolding trim_right
trim_right-tail c s h = cons-tail (is_space c && is_empty (trim_right s)) c (trim_right s) s h

-- A text that trims to itself at its end still does once its beginning is trimmed.
trim_right-trim_left : (s : String) → trim_right s ≡ s → trim_right (trim_left s) ≡ trim_left s
unfolding trim_left trim_right
trim_right-trim_left String.[] h = refl
trim_right-trim_left (String.◌∷◌ c s) h = elim (Bool-cases (is_space c)) [
  | inl y ↦ ground (arith, y, trim_right-trim_left s (trim_right-tail c s h))
  | inr n ↦ ground (arith, n, h)
]

trim_right_idem : (s : String) → trim_right (trim_right s) ≡ trim_right s
unfolding trim_right
trim_right_idem String.[] = refl
trim_right_idem (String.◌∷◌ c s) = ground (arith, trim_right_idem s)

trim_left_idem : (s : String) → trim_left (trim_left s) ≡ trim_left s
unfolding trim_left
trim_left_idem String.[] = refl
trim_left_idem (String.◌∷◌ c s) = ground (arith, trim_left_idem s)

pub trim_space_idem : (s : String) → trim_space (trim_space s) ≡ trim_space s
unfolding trim_space
trim_space_idem s =
    ap trim_left (trim_right-trim_left (trim_right s) (trim_right_idem s))
    ∙ trim_left_idem (trim_right s)
