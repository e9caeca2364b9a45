-- ===== src/Console/Html.antt =====
-- cleanHTML of search_vacancy_datails.go.
use Prim.Native.Char.{Char, code}
use job_parser.Base.{
  ℕ, ◌≡◌, String, Bool, true, false, not, ◌&&◌, ◌||◌, refl, ◌∙◌, arith, if◌then◌else◌,
}
use job_parser.Console.Text.{
  is, is_space, trim_left, trim_right, trim_space, replace_from, trim_space_idem,
}

-- The loop, with its variable `inTag`.
unfoldable pub strip_tags : Bool → String → String
strip_tags in_tag String.[] = ""
strip_tags in_tag (String.◌∷◌ c s) =
    let inside = if is 60 c then true else if is 62 c then false else in_tag in
    let rest = strip_tags inside s in
    if is 60 c || is 62 c || inside then rest else String.◌∷◌ c rest

-- The three calls of ReplaceAll.
abbrev replaced : String → String
replaced text =
    let paragraphs = replace_from "<p>" 2 "\n" 0 text in
    replace_from "<li>" 3 "• " 0 (replace_from "<br>" 3 "\n" 0 paragraphs)

unfoldable pub clean_html : String → String
unfolding strip_tags replace_from trim_space
clean_html text = trim_space (strip_tags false (replaced text))

clean_html_lem : clean_html "<p>a <b>b</b><li>x<br>" ≡ "a b• x"
unfolding clean_html is_space
clean_html_lem = refl

-- No angle bracket in a text.
abbrev pub tagless : String → Bool
tagless String.[] = true
tagless (String.◌∷◌ c s) = not (is 60 c) && not (is 62 c) && tagless s

strip_tags-tagless : (b : Bool) (s : String) → tagless (strip_tags b s) ≡ true
unfolding strip_tags
strip_tags-tagless b String.[] = refl
strip_tags-tagless b (String.◌∷◌ c s) =
    ground (arith, strip_tags-tagless true s, strip_tags-tagless false s)

strip_tags-id : (s : String) → tagless s ≡ true → strip_tags false s ≡ s
unfolding strip_tags
strip_tags-id String.[] h = refl
strip_tags-id (String.◌∷◌ c s) h = ground (arith, h, strip_tags-id s)

trim_left-tagless : (s : String) → tagless s ≡ true → tagless (trim_left s) ≡ true
unfolding trim_left
trim_left-tagless String.[] h = refl
trim_left-tagless (String.◌∷◌ c s) h = ground (arith, h, trim_left-tagless s)

trim_right-tagless : (s : String) → tagless s ≡ true → tagless (trim_right s) ≡ true
unfolding trim_right
trim_right-tagless String.[] h = refl
trim_right-tagless (String.◌∷◌ c s) h = ground (arith, h, trim_right-tagless s)

-- A text that begins with `<` is not found in a text without brackets.
replace_from-id :
    (b : Char) (p : String) (more : ℕ) (new s : String)
    → code b ≡ 60
    → tagless s ≡ true
    → replace_from (String.◌∷◌ b p) more new 0 s ≡ s
unfolding replace_from
replace_from-id b p more new String.[] e h = refl
replace_from-id b p more new (String.◌∷◌ c s) e h =
    ground (arith, e, h, replace_from-id b p more new s e)

pub clean_html-untagged : (s : String) → tagless s ≡ true → clean_html s ≡ trim_space s
unfolding clean_html
clean_html-untagged s h = rw (
  replace_from-id "<" "p>" 2 "\n" s refl h,
  replace_from-id "<" "br>" 3 "\n" s refl h,
  replace_from-id "<" "li>" 3 "• " s refl h,
  strip_tags-id s h,
)

cleaned_tagless : (s : String) → tagless (clean_html s) ≡ true
unfolding clean_html
cleaned_tagless s =
    trim_left-tagless _ (trim_right-tagless _ (strip_tags-tagless false (replaced s)))

-- Whatever the text, cleanHTML leaves no angle bracket in it; a text without any is only trimmed; and
-- cleaning a text that is clean changes nothing.
clean_html-tagless :
    (s : String)
    → (tagless (clean_html s) ≡ true)
      × (tagless s ≡ true → clean_html s ≡ trim_space s)
      × (clean_html (clean_html s) ≡ clean_html s)
unfolding clean_html
clean_html-tagless s = (
  cleaned_tagless s,
  clean_html-untagged s,
  clean_html-untagged (clean_html s) (cleaned_tagless s) ∙ trim_space_idem _,
)
