-- ===== src/Sites/ById/Laws.antt =====
-- GetVacancyByID beside the search for details.
use mathlib.Core.Path.{subst}
use text.Mathlib.Text.{◌==◌ as str_eq}
use job_parser.Base.{
  ℕ, String, ◌≡◌, ◌<◌, refl, sym, ◌∙◌, Bool, true, false, Option, none, some, ◌⊎◌, inl, inr,
  is_some, arith, [], ◌∷◌,
}
use job_parser.Base.Http.{HttpClient}
use job_parser.Base.Error.{Error}
use job_parser.Breaker.{admit, execute}
use job_parser.Models.{SearchVacancyDetailesResult, zero_details}
use job_parser.Sites.{
  BaseParser, Exchange, Reply, taken, request, answered, url_builder, search_site_details, in_slot,
  acquire_semaphore, store, check_response_status, body_read,
  handle_circuit_breaker_error_universal,
}
use job_parser.Sites.Convert.{HhVacancy, SearchDetails, hh_convert_details}
use job_parser.Sites.Make.{Libraries, hh_search_details, hh_parse_details}
use job_parser.Sites.ById.{
  Answer, Transport, execute_request, replied, sent, read_body, answer_read, hh_vacancy_by_id,
}

unfoldable pub is_failure {ℓ} : {T : Type ℓ} → Error ⊎ T → Bool
is_failure (inl e) = true
is_failure (inr t) = false

-- What net/http documents of Get: a request for the URL that the client sends.
abbrev pub sent_by : {R : Type 0} → Transport R → HttpClient → Error ⊎ R → Error ⊎ Answer
sent_by net client (inl e) = inl e
sent_by net client (inr r) = net.send client r

abbrev pub IsGet : {R : Type 0} → Transport R → Type 0
IsGet net =
    (client : HttpClient) (url : String)
    → net.get client url ≡ sent_by net client (net.new_request url)

-- A request that gets through has an error where the outcome has one.
through {ℓ} :
    {P : Type 0} {T : Type ℓ} (ex : Exchange) (url label : String)
    (parse : String → P × Option Error) (convert : P → T × Option Error) (zero_value : T)
    (p : BaseParser)
    → (admit ex.start p.circuit_breaker).1 ≡ none
    → ex.slot ≡ taken
    → p.held < p.max_concurrent
    → let made = request ex url label parse convert zero_value p in
      (made.1 ≡ url ∷ [])
      × (is_some made.3 ≡ is_failure (answered ex.print label parse convert ex.reply))
unfolding request execute in_slot acquire_semaphore store handle_circuit_breaker_error_universal
    is_failure
through ex url label parse convert zero_value p a b h = ground (arith, a, b, h)

module _ {U R : Type 0} (lib : Libraries U) (net : Transport R) (p : BaseParser)
    (print : ℕ → String) (decode : String → Error ⊎ HhVacancy) where
  -- A body that comes with this answer decodes for both or for neither.
  abbrev pub IsAlike : Error ⊎ Answer → Type 0
  IsAlike (inl e) = Unit
  IsAlike (inr (code, body, err)) = is_failure (decode body) ≡ is_failure (lib.read_details body)

  -- The outcome of a details request in place of the one of Get.
  abbrev details_read : Reply → Error ⊎ SearchVacancyDetailesResult
  details_read r =
      answered print "convert of details - failed: " (hh_parse_details lib p)
        (hh_convert_details p.name) r

  abbrev by_id_read : Error ⊎ Answer → Error ⊎ HhVacancy
  by_id_read = answer_read print "parse HH-JSON failed: " decode

  body_fails :
      (code : ℕ) (body : String) (err : Option Error) (d : Error ⊎ SearchDetails)
      (v : Error ⊎ HhVacancy)
      → lib.read_details body ≡ d
      → decode body ≡ v
      → is_failure v ≡ is_failure d
      → is_failure (by_id_read (inr (code, body, err)))
        ≡ is_failure (details_read (replied net (inr (code, body, err))))
  unfolding is_failure answer_read read_body replied answered check_response_status body_read
      hh_parse_details hh_convert_details
  body_fails code body none (inl e) (inl e') h k a = ground (arith, h, k)
  body_fails code body none (inl e) (inr v) h k a = absurd (ground (arith, a))
  body_fails code body none (inr d) (inl e) h k a = absurd (ground (arith, a))
  body_fails code body none (inr d) (inr v) h k a = ground (arith, h, k)
  body_fails code body (some x) d v h k a = ground (arith, h, k)

  answer_fails :
      (a : Error ⊎ Answer)
      → IsAlike a
      → is_failure (by_id_read a) ≡ is_failure (details_read (replied net a))
  unfolding is_failure answer_read answered replied
  answer_fails (inl e) k = refl
  answer_fails (inr (code, body, err)) k =
      body_fails code body err (lib.read_details body) (decode body) refl refl k

  both_fail :
      (client : HttpClient) (r : Error ⊎ R)
      → IsAlike (sent_by net client r)
      → is_failure (by_id_read (sent_by net client r))
        ≡ is_failure (details_read (sent net client r))
  unfolding sent is_failure answer_read answered
  both_fail client (inl e) k = refl
  both_fail client (inr r) k = answer_fails (net.send client r) k

  -- GetVacancyByID and the search for details ask the same site the same thing: for an ID that is not
  -- empty, a details request on HH.ru that the breaker lets in and that gets a free slot asks for the
  -- URL that GetVacancyByID asks for, and ends with an error just when GetVacancyByID does. The reply is
  -- what executeRequest gets; Get makes a request and sends it; and the body that comes, if one does,
  -- decodes as a HHVacancy just when it decodes as a SearchDetails.
  pub details_as_by_id :
      (ex : Exchange) (id : String)
      → IsGet net
      → IsAlike (net.get p.http_client (url_builder p.base_url id))
      → str_eq id "" ≡ false
      → (admit ex.start p.circuit_breaker).1 ≡ none
      → ex.slot ≡ taken
      → p.held < p.max_concurrent
      → ex.print ≡ print
      → ex.reply ≡ execute_request net p (url_builder p.base_url id)
      → let made = hh_search_details lib ex id p in
        (made.1 ≡ url_builder p.base_url id ∷ [])
        × (is_some made.3 ≡ is_failure (hh_vacancy_by_id net print decode id p))
  unfolding hh_search_details search_site_details execute_request hh_vacancy_by_id
  details_as_by_id ex id get alike named a b h w r =
      let url = url_builder p.base_url id in
      let (asked, err) =
        through ex url "convert of details - failed: " (hh_parse_details lib p)
          (hh_convert_details p.name) zero_details p a b h in
      (
        asked,
        rw (named, get p.http_client url)
            (err
              ∙ rw (r, w)
                  (sym (
                    both_fail p.http_client (net.new_request url)
                      (subst IsAlike (get p.http_client url) alike)))),
      )
