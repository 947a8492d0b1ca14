-- ===== src/Provider.antt =====
-- internal/provider/provider.go and http.go: the errors of providers, and how a request handler
-- classifies them. What `errors.Is` and `errors.As` find in an error is a constructor.
use Prim.Native.String.{◌++◌ as append, len}
use llm_api_gateway.Prelude.{
  ℕ, ◌*◌, ◌/◌, Bool, false, not, ◌==◌, ℤ, pos, pos_part, ltb, ltb_ℤ, leb_ℤ, String, str_eq, Option,
  none, some, if◌then◌else◌,
}

pub record ProviderError : Type 0 where
  pub provider_name : String
  pub status_code : ℕ
  pub message : String
  pub retryable : Bool
  -- nanoseconds
  pub retry_after : ℤ

pub data Failure : Type 0 where
  canceled deadline_exceeded other_error : Failure
  provider_error : ProviderError → Failure

unfoldable pub is_retryable : Failure → Bool
is_retryable (provider_error e) = e.retryable
is_retryable f = false

-- `propagateRetryAfter`: the seconds of the header that it sets.
unfoldable pub propagate_retry_after : Failure → Option ℕ
propagate_retry_after (provider_error e) =
    if ltb_ℤ (pos 0) e.retry_after
    then some (pos_part e.retry_after / 1_000_000_000)
    else if e.status_code == 429
    then some 1
    else none
propagate_retry_after f = none

-- The library calls of `parseRetryAfter`: `ParseDuration(v + "s")`, the time until the date that
-- `ParseTime` reads, and the number that `Sscanf` reads.
pub record RetryParsers : Type 0 where
  pub duration : String → Option ℤ
  pub until_date : String → Option ℤ
  pub scan : String → Option ℤ

unfoldable pub scanned : Option ℤ → ℤ
scanned none = pos 0
scanned (some s) = if leb_ℤ (pos 0) s then pos (pos_part s * 1_000_000_000) else pos 0

unfoldable pub dated : Option ℤ → ℤ → ℤ
dated (some d) rest = if ltb_ℤ (pos 0) d then d else pos 0
dated none rest = rest

unfoldable pub parse_retry_after : RetryParsers → String → ℤ
unfolding dated scanned
parse_retry_after lib v = if str_eq v "" then pos 0 else elim (lib.duration v) [
  | some d ↦ d
  | none ↦ dated (lib.until_date v) (scanned (lib.scan v))
]

-- `maxProviderResponseSize`
abbrev pub max_response_size : ℕ
max_response_size = 8_388_608

-- `readProviderResponse`, of a body with so many bytes, all of which can be read: `none` is the
-- error.
unfoldable pub read_provider_response : ℕ → Option ℕ
read_provider_response n = if ltb max_response_size n then none else some n

-- `truncateProviderError`, with `TrimSpace` and the slice of the first bytes.
unfoldable pub truncate_provider_error : (String → String) → (ℕ → String → String) → String → String
truncate_provider_error trim_space first message =
    let m = trim_space message in if ltb 4096 (len m) then append (first 4096 m) "…" else m

-- `providerErrorMessage`; `envelope` gives the two messages of a body that can be decoded.
unfoldable pub provider_error_message :
    (String → String)
    → (ℕ → String → String)
    → (String → Option (String × String))
    → String
    → String
unfolding truncate_provider_error
provider_error_message trim_space first envelope body =
    let cut = truncate_provider_error trim_space first in
    elim (envelope body) [
      | none ↦ cut body
      | some (error, message) ↦
          if not (str_eq error "")
          then cut error
          else if not (str_eq message "")
          then cut message
          else cut body
    ]
