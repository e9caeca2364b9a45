-- ===== src/Base/Error.antt =====
-- Go's `error`: the breaker's two sentinels (circuitbreaker/breaker.go), other texts, and errors that
-- `fmt.Errorf` wraps with `%w` between a prefix and a suffix.
use Prim.Native.String
use Prim.Native.String.{String}
use mathlib.Core.Bool.{Bool, true, false}

pub data Error : Type 0 where
  circuit_open too_many_requests : Error
  message : String → Error
  wrap : String → Error → String → Error

-- The method `Error()`.
unfoldable pub error_text : Error → String
error_text circuit_open = "circuit breaker is open"
error_text too_many_requests = "too many requests in half-open state"
error_text (message s) = s
error_text (wrap prefix e suffix) = String.◌++◌ prefix (String.◌++◌ (error_text e) suffix)

-- `errors.Is(err, ErrCircuitOpen)`
abbrev pub is_circuit_open : Error → Bool
is_circuit_open circuit_open = true
is_circuit_open too_many_requests = false
is_circuit_open (message s) = false
is_circuit_open (wrap prefix e suffix) = is_circuit_open e

-- `errors.Is(err, ErrTooManyRequests)`
abbrev pub is_too_many_requests : Error → Bool
is_too_many_requests circuit_open = false
is_too_many_requests too_many_requests = true
is_too_many_requests (message s) = false
is_too_many_requests (wrap prefix e suffix) = is_too_many_requests e
