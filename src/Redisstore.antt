-- ===== src/Redisstore.antt =====
-- internal/redisstore/store.go: the one Redis connection of the gateway, which an operator may replace
-- while requests run. A client is a handle, of which only the identity matters here. `ParseURL`,
-- `NewClient` and `Ping` belong to the Redis library: what they answer is an argument. The record
-- of the clients created and closed is kept beside the manager, so that leaks can be stated.
pub mod Clients
use llm_api_gateway.Prelude.{
  ℕ, Bool, true, false, ◌&&◌, ◌||◌, String, str_eq, Option, none, some, List, [], ◌∷◌,
  if◌then◌else◌,
}

-- The manager, and what has happened to clients so far.
pub record Manager : Type 0 where
  pub client : Option ℕ
  pub url : String
  pub created : List ℕ
  pub closed : List ℕ

-- `New`
abbrev pub new : Manager
new = record { client = none; url = ""; created = []; closed = [] }

pub data StoreError : Type 0 where
  unavailable parse_error ping_error : StoreError

-- What the library answers about a URL: it is refused, or it names a client that answers the
-- ping or does not.
pub data Endpoint : Type 0 where
  unparsable : Endpoint
  endpoint : ℕ → Bool → Endpoint

unfoldable pub is_active : Option ℕ → Bool
is_active none = false
is_active (some c) = true

-- `Active`
unfoldable pub active : Manager → Bool
active m = is_active m.client

-- `WithClient`
unfoldable pub with_client {ℓ} :
    {A : Type ℓ} → Manager → (ℕ → Option StoreError × A) → A → Option StoreError × A
with_client m fn untouched = elim m.client [ none ↦ (some unavailable, untouched) | some c ↦ fn c ]

-- `if old != nil { old.Close() }`
unfoldable pub close_old : Option ℕ → List ℕ → List ℕ
close_old none closed = closed
close_old (some old) closed = old ∷ closed

-- The client and the URL are cleared, the old client is closed.
unfoldable pub disconnect : Manager → Manager
disconnect m = record m { client = none; url = ""; closed = close_old m.client m.closed }

-- The part of `ReplaceURL` below the lock, for a client that answered.
unfoldable pub install : String → ℕ → Manager → Manager
install raw_url next m =
    if str_eq m.url raw_url && is_active m.client
    then record m { closed = next ∷ m.closed }
    else record m { client = some next; url = raw_url; closed = close_old m.client m.closed }

unfoldable pub connect : String → Endpoint → Manager → Manager × Option StoreError
connect raw_url unparsable m = (m, some parse_error)
connect raw_url (endpoint next true) m =
    (install raw_url next (record m { created = next ∷ m.created }), none)
connect raw_url (endpoint next false) m =
    (record m { created = next ∷ m.created; closed = next ∷ m.closed }, some ping_error)

unfoldable pub replace_url : String → Endpoint → Manager → Manager × Option StoreError
replace_url raw_url answer m =
    if str_eq raw_url "" || str_eq raw_url "${REDIS_URL}"
    then (disconnect m, none)
    else connect raw_url answer m

-- `Close`
unfoldable pub close : Manager → Manager
unfolding disconnect
close m = disconnect m
