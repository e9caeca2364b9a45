-- ===== src/Sites/Laws.antt =====
-- What a request does: its result, its semaphore and its breaker.
use Prim.Native.String
use job_parser.Base.{
  ℕ, suc, String, ◌≡◌, refl, ◌≤◌, ◌<◌, ◌+◌, ◌-◌, ◌⊎◌, inr, Option, none, some, List, [], arith,
  length, word, ap, ℕ_discrete,
}
use job_parser.Base.Error.{Error, message}
use job_parser.Breaker.{closed, opened, admit, settle, execute}
use job_parser.Sites.{
  BaseParser, Exchange, Session, busy, Reply, not_made, not_sent, response, answered, converted,
  parsed, body_read, store, in_slot, acquire_semaphore, release_semaphore, check_response_status,
  request, handle_circuit_breaker_error_universal,
}

-- The body of a good reply, parsed and converted.
abbrev pub IsGood {ℓ} :
    {P : Type 0} {T : Type ℓ}
    → (String → P × Option Error)
    → (P → T × Option Error)
    → Reply
    → T
    → Type ℓ
IsGood {P = P} parse convert r t =
    (body : String) × (x : P) × (r ≡ response 200 body none)
    × (parse body ≡ (x, none))
    × (convert x ≡ (t, none))

module _ {ℓ} {P : Type 0} {T : Type ℓ} (parse : String → P × Option Error)
    (convert : P → T × Option Error) where
  converted-inr :
      (label : String) (c : T × Option Error) (t : T) → converted label c ≡ inr t → c ≡ (t, none)
  unfolding converted
  converted-inr label (x, none) t h = ground (arith, h)
  converted-inr label (x, some e) t h = ground (arith, h)

  parsed-inr :
      (label : String) (c : P × Option Error) (t : T)
      → parsed label convert c ≡ inr t
      → (x : P) × (c ≡ (x, none)) × (convert x ≡ (t, none))
  unfolding parsed
  parsed-inr label (x, none) t h = (x, refl, converted-inr label (convert x) t h)
  parsed-inr label (x, some e) t h = absurd (ground (arith, h))

  answered-IsGood :
      (print : ℕ → String) (label : String) (r : Reply) (t : T)
      → answered print label parse convert r ≡ inr t
      → IsGood parse convert r t
  unfolding answered body_read check_response_status
  answered-IsGood print label (not_made e) t h = absurd (ground (arith, h))
  answered-IsGood print label (not_sent e) t h = absurd (ground (arith, h))
  answered-IsGood print label (response status body (some e)) t h = absurd (ground (arith, h))
  answered-IsGood print label (response status body none) t h = elim (ℕ_discrete status 200) [
    | yes q ↦
        let (x, e, e') = parsed-inr label (parse body) t (ground (arith, q, h)) in
        (body, x, ap (λ n. response n body none) q, e, e')
    | no n ↦ absurd (ground (arith, n, h))
  ]

module _ {ℓ} {P : Type 0} {T : Type ℓ} (ex : Exchange) (url label : String)
    (parse : String → P × Option Error) (convert : P → T × Option Error) (zero_value : T)
    (p : BaseParser) where
  -- The outcome of the request itself.
  abbrev outcome : Error ⊎ T
  outcome = answered ex.print label parse convert ex.reply

  abbrev attempt : Session T → Session T × Option Error
  attempt s = in_slot url outcome (acquire_semaphore ex.slot p s)

  abbrev made : BaseParser × List String × T × Option Error
  made = request ex url label parse convert zero_value p

  attempt-held :
      (s : Session T)
      → ((attempt s).0.held ≡ s.held) × (length (attempt s).0.asked ≤ suc (length s.asked))
  unfolding in_slot acquire_semaphore release_semaphore store
  attempt-held s = ground arith

  -- Whatever happens, a request leaves the semaphore as it found it and asks for one URL at most.
  request-held : (made.0.held ≡ p.held) × (length made.1 ≤ 1)
  unfolding request execute
  request-held =
      ground (arith, attempt-held (record { held = p.held; asked = []; found = zero_value }))

  -- While the breaker is open and its timeout has not passed, a request asks for no URL and returns the
  -- zero value with the error that names the breaker; the parser does not change.
  pub site_spared :
      p.circuit_breaker.state ≡ opened
      → ex.start - p.circuit_breaker.last_failure_time < p.circuit_breaker.reset_timeout
      → made ≡ (
        p,
        [],
        zero_value,
        some (message (String.◌++◌ p.name " is temporarily unavailable (circuit breaker open)")),
      )
  unfolding request execute admit handle_circuit_breaker_error_universal
  site_spared o h = ground arith

  -- A request that finds no slot in time counts as a failure of the site, although the site was not
  -- asked: on a closed breaker that is one failure short of its threshold it opens it. The threshold
  -- is a word.
  pub busy_counts :
      ex.slot ≡ busy
      → p.circuit_breaker.state ≡ closed
      → p.circuit_breaker.failures + 1 ≡ p.circuit_breaker.failure_threshold
      → p.circuit_breaker.failure_threshold < word
      → (made.0.circuit_breaker.state ≡ opened) × (made.1 ≡ []) × (made.2 ≡ zero_value)
  unfolding request execute admit settle in_slot acquire_semaphore
      handle_circuit_breaker_error_universal
  busy_counts b c h w = ground arith

  -- A request returns no error only for a reply with the status 200 whose body is read, parsed and
  -- converted without an error, and then it returns what the conversion gave.
  pub request-IsGood : (made.3 ≡ none) → IsGood parse convert ex.reply made.2
  unfolding request execute in_slot acquire_semaphore store handle_circuit_breaker_error_universal
  request-IsGood h =
      answered-IsGood parse convert ex.print label ex.reply made.2 (ground (arith, h))
