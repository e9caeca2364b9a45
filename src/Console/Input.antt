-- ===== src/Console/Input.antt =====
-- What the console reads: the input of MultiSearch (multi_search.go) and getCompositeIDFromInput
-- (search_vacancy_datails.go). The scanner is the list of the lines that are still to come.
use job_parser.Base.{
  zero, suc, ◌≡◌, String, true, false, Option, none, some, List, [], ◌∷◌, ◌⊎◌, inl, inr, arith,
  refl, ◌≤◌, length, if◌then◌else◌,
}
use job_parser.Base.Int.{ℤ, pos, negsuc, is_positive, is_zero}
use job_parser.Base.Error.{Error, message}
use job_parser.Models.{SearchParams}
use job_parser.Console.Text.{trim_space, atoi, is_empty, trim_space_idem}

-- `if scanner.Scan() { x = strings.TrimSpace(scanner.Text()) }`
unfoldable pub read_trimmed : List String → String × List String
unfolding trim_space
read_trimmed [] = ("", [])
read_trimmed (l ∷ ls) = (trim_space l, ls)

-- The count, where Atoi succeeds and it is positive; else the field stays 0.
positive_count : Option ℤ → ℤ
positive_count none = pos 0
positive_count (some n) = if is_positive n then n else pos 0

count_of : String → ℤ
unfolding positive_count atoi
count_of text = if is_empty text then pos 0 else positive_count (atoi text)

or_twenty : ℤ → ℤ
or_twenty n = if is_zero n then pos 20 else n

-- What MultiSearch reads before it searches.
unfoldable pub read_search_params : List String → SearchParams × List String
unfolding read_trimmed count_of or_twenty
read_search_params lines =
    let (text, lines') = read_trimmed lines in
    let (count, rest) = read_trimmed lines' in
    (record { text = text; area = ""; per_page = or_twenty (count_of count); page = pos 0 }, rest)

source_after : String → List String → (Error ⊎ String × String) × List String
unfolding trim_space
source_after id [] = (inl (message "❌ ввели неверное имя сервиса\n"), [])
source_after id (l ∷ ls) = (inr (trim_space l, id), ls)

-- getCompositeIDFromInput: the source and the ID.
unfoldable pub get_composite_id_from_input : List String → (Error ⊎ String × String) × List String
unfolding source_after
get_composite_id_from_input [] = (inl (message "❌ Проблема со сканированием ввода\n"), [])
get_composite_id_from_input (l ∷ ls) =
    let id = trim_space l in
    if is_empty id
    then (inl (message "❌ ID вакансии не может быть пустым\n"), ls)
    else source_after id ls

-- A text without white space round it.
abbrev pub IsTrimmed : String → Type 0
IsTrimmed s = trim_space s ≡ s

read_trimmed-IsTrimmed : (lines : List String) → IsTrimmed (read_trimmed lines).0
unfolding read_trimmed
read_trimmed-IsTrimmed [] = refl
read_trimmed-IsTrimmed (l ∷ ls) = trim_space_idem l

positive_count_lem : (o : Option ℤ) → is_positive (or_twenty (positive_count o)) ≡ true
unfolding positive_count or_twenty
positive_count_lem none = refl
positive_count_lem (some (pos zero)) = refl
positive_count_lem (some (pos (suc n))) = refl
positive_count_lem (some (negsuc n)) = refl

read_trimmed-length : (lines : List String) → length (read_trimmed lines).1 ≤ length lines
unfolding read_trimmed
read_trimmed-length lines = ground arith

count_positive : (text : String) → is_positive (or_twenty (count_of text)) ≡ true
unfolding count_of or_twenty positive_count
count_positive text = ground (arith, positive_count_lem (atoi text))

pub read_search_params_lem :
    (lines : List String)
    → IsTrimmed (read_search_params lines).0.text
      × (is_positive (read_search_params lines).0.per_page ≡ true)
      × (length (read_search_params lines).1 ≤ length lines)
unfolding read_search_params
read_search_params_lem lines = (
  read_trimmed-IsTrimmed lines,
  count_positive (read_trimmed (read_trimmed lines).1).0,
  omega (arith, read_trimmed-length lines, read_trimmed-length (read_trimmed lines).1),
)

pub get_composite_id_lem :
    (lines rest : List String) (source id : String)
    → get_composite_id_from_input lines ≡ (inr (source, id), rest)
    → IsTrimmed source × IsTrimmed id × (is_empty id ≡ false)
unfolding get_composite_id_from_input source_after
get_composite_id_lem [] rest source id h = ground arith
get_composite_id_lem (l ∷ []) rest source id h = ground arith
get_composite_id_lem (l ∷ k ∷ ls) rest source id h =
    ground (arith, h, trim_space_idem l, trim_space_idem k)

pub get_composite_id-length :
    (lines : List String) → length (get_composite_id_from_input lines).1 ≤ length lines
unfolding get_composite_id_from_input source_after
get_composite_id-length lines = ground arith
