-- ===== src/Sites/ById/Tests.antt =====
-- A vacancy that both ways read.
use job_parser.Base.{String, ◌≡◌, refl, none, [], ◌∷◌, arith, inr, is_some}
use job_parser.Breaker.{admit}
use job_parser.Sites.{taken, response}
use job_parser.Sites.Tests.{ad, breaker, site, exchange, libraries}
use job_parser.Sites.Convert.{SearchDetails}
use job_parser.Sites.Make.{Libraries, hh_search_details}
use job_parser.Sites.ById.{Transport, execute_request, hh_vacancy_by_id}
use job_parser.Sites.ById.Laws.{is_failure, details_as_by_id}

abbrev details : SearchDetails
details = record {
  employer = ad.employer;
  area = ad.area;
  salary = ad.salary;
  description = ad.description;
  name = ad.name;
  id = ad.id;
  url = ad.url;
}

abbrev reading : Libraries String
reading = record libraries { read_details = λ body. inr details }

-- A site that answers every request with the status 200.
abbrev net : Transport String
net = record {
  new_request = λ url. inr url;
  send = λ client url. inr (200, "{}", none);
  get = λ client url. inr (200, "{}", none);
}

details_as_by_id_example :
    ((hh_search_details reading (exchange taken (response 200 "{}" none)) "7" (site breaker)).1
      ≡ "u/7" ∷ [])
    × (is_some
          (hh_search_details reading (exchange taken (response 200 "{}" none)) "7" (site breaker)).3
        ≡ is_failure (hh_vacancy_by_id net (λ n. "") (λ body. inr ad) "7" (site breaker)))
unfolding admit execute_request is_failure
details_as_by_id_example =
    details_as_by_id reading net (site breaker) (λ n. "") (λ body. inr ad)
      (exchange taken (response 200 "{}" none)) "7" (λ client url. refl) refl refl refl refl
      (omega arith) refl refl
