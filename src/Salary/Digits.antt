-- ===== src/Salary/Digits.antt =====
-- A number is read back from its text.
use Prim.Native.Char.{code}
use Prim.Native.String
use text.Mathlib.TextLemmas.{nil-append, cons-append}
use mathlib.Core.WellFounded.{Acc}
use job_parser.Base.{
  ℕ, zero, suc, String, ◌+◌, ◌-◌, ◌*◌, ◌/◌, ◌%◌, ◌<◌, ◌≡◌, refl, ◌∙◌, ◌==◌, dec_lt, if◌then◌else◌,
  arith,
}
use job_parser.Base.Int.{pos}
use job_parser.Base.Order.{lt_wf}
use job_parser.Salary.{
  digit, tenth, thousandth, itoa_from, itoa, three_digits, grouped_from, format_number,
}

-- The decimal number of a text, its spaces left out, after the digits read so far.
unfoldable pub number : ℕ → String → ℕ
number n String.[] = n
number n (String.◌∷◌ c s) = number (if code c == 32 then n else n * 10 + (code c - 48)) s

number-append : (n : ℕ) (s t : String) → number n (String.◌++◌ s t) ≡ number (number n s) t
unfolding number
number-append n String.[] t = rw (nil-append t) refl
number-append n (String.◌∷◌ c s) t =
    rw (cons-append c s t) (number-append (if code c == 32 then n else n * 10 + (code c - 48)) s t)

number-digit : (n d : ℕ) → d < 10 → number n (digit d) ≡ n * 10 + d
unfolding number digit
number-digit n zero h = omega arith
number-digit n (suc zero) h = omega arith
number-digit n (suc (suc zero)) h = omega arith
number-digit n (suc (suc (suc zero))) h = omega arith
number-digit n (suc (suc (suc (suc zero)))) h = omega arith
number-digit n (suc (suc (suc (suc (suc zero))))) h = omega arith
number-digit n (suc (suc (suc (suc (suc (suc zero)))))) h = omega arith
number-digit n (suc (suc (suc (suc (suc (suc (suc zero))))))) h = omega arith
number-digit n (suc (suc (suc (suc (suc (suc (suc (suc zero)))))))) h = omega arith
number-digit n (suc (suc (suc (suc (suc (suc (suc (suc (suc zero))))))))) h = omega arith
number-digit n (suc (suc (suc (suc (suc (suc (suc (suc (suc (suc d)))))))))) h =
    absurd (omega arith)

number-three_digits : (n k : ℕ) → k < 1000 → number n (three_digits k) ≡ n * 1000 + k
unfolding three_digits
number-three_digits n k h =
    number-append n (digit (k / 100)) (String.◌++◌ (digit (k / 10 % 10)) (digit (k % 10)))
    ∙ number-append (number n (digit (k / 100))) (digit (k / 10 % 10)) (digit (k % 10))
    ∙ rw (number-digit n (k / 100) (omega arith)) (
        rw (number-digit (n * 10 + k / 100) (k / 10 % 10) (omega arith)) (
          number-digit ((n * 10 + k / 100) * 10 + k / 10 % 10) (k % 10) (omega arith)
          ∙ omega arith))

number-itoa_from : (n : ℕ) (a : Acc ◌<◌ n) → number 0 (itoa_from n a) ≡ n
unfolding itoa_from
number-itoa_from n (Acc.intro _ below) =
    elim (dec_lt n 10)
      as (λ x.
        number 0 (elim x [
          | yes h ↦ digit n
          | no h ↦ String.◌++◌ (itoa_from (n / 10) (below (n / 10) (tenth n h))) (digit (n % 10))
        ])
        ≡ n) [
          | yes h ↦ number-digit 0 n h ∙ omega arith
          | no h ↦
              number-append 0 (itoa_from (n / 10) (below (n / 10) (tenth n h))) (digit (n % 10))
              ∙ rw (number-itoa_from (n / 10) (below (n / 10) (tenth n h)))
                  (number-digit (n / 10) (n % 10) (omega arith) ∙ omega arith)
        ]

number-grouped_from : (n : ℕ) (a : Acc ◌<◌ n) → number 0 (grouped_from n a) ≡ n
unfolding grouped_from itoa number
number-grouped_from n (Acc.intro _ below) =
    elim (dec_lt n 1000)
      as (λ x.
        number 0 (elim x [
          | yes h ↦ itoa n
          | no h ↦
              String.◌++◌ (grouped_from (n / 1000) (below (n / 1000) (thousandth n h)))
                (String.◌++◌ " " (three_digits (n % 1000)))
        ])
        ≡ n) [
          | yes h ↦ number-itoa_from n (lt_wf.apply n)
          | no h ↦
              number-append 0 (grouped_from (n / 1000) (below (n / 1000) (thousandth n h)))
                (String.◌++◌ " " (three_digits (n % 1000)))
              ∙ rw (number-grouped_from (n / 1000) (below (n / 1000) (thousandth n h))) (
                  number-append (n / 1000) " " (three_digits (n % 1000))
                  ∙ number-three_digits (n / 1000) (n % 1000) (omega arith)
                  ∙ omega arith)
        ]

-- A number that is not negative is read back from what formatNumber prints: its decimal digits, the
-- spaces left out.
pub number-format_number : (n : ℕ) → number 0 (format_number (pos n)) ≡ n
unfolding format_number
number-format_number n = number-grouped_from n (lt_wf.apply n)
