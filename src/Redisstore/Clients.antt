-- ===== src/Redisstore/Clients.antt =====
-- What happens to the clients over a history of replacements.
use llm_api_gateway.Prelude.{
  ℕ, suc, ◌+◌, ◌≡◌, refl, true, false, ◌==◌, String, Option, none, some, List, [], ◌∷◌, arith,
  if◌then◌else◌,
}
use llm_api_gateway.Redisstore.{
  Manager, new, StoreError, Endpoint, unparsable, endpoint, close_old, disconnect, install, connect,
  replace_url, close,
}

-- What an operator, or a reload of the configuration, does to the store.
pub data Change : Type 0 where
  replaces : String → Endpoint → Change
  closes : Change

unfoldable pub apply : Change → Manager → Manager
apply (replaces raw_url answer) m = (replace_url raw_url answer m).0
apply closes m = close m

unfoldable pub run : Manager → List Change → Manager
run m [] = m
run m (c ∷ cs) = run (apply c m) cs

-- How often a client occurs in a list.
unfoldable pub count : ℕ → List ℕ → ℕ
count c [] = 0
count c (d ∷ ds) = if d == c then suc (count c ds) else count c ds

unfoldable pub held : ℕ → Option ℕ → ℕ
held c none = 0
held c (some d) = if d == c then 1 else 0

-- Every client created has been closed, or is the one that the manager holds.
abbrev pub Settled : Manager → Type 0
Settled m = (c : ℕ) → count c m.created ≡ count c m.closed + held c m.client

count-close_old :
    (c : ℕ) (o : Option ℕ) (closed : List ℕ)
    → count c (close_old o closed) ≡ count c closed + held c o
unfolding count close_old held
count-close_old c none closed = omega arith
count-close_old c (some d) closed = ground arith

disconnect-Settled : (m : Manager) → Settled m → Settled (disconnect m)
unfolding disconnect held
disconnect-Settled m h c = ground (arith, h c, count-close_old c m.client m.closed)

install-Settled :
    (u : String) (next : ℕ) (m : Manager)
    → Settled m
    → Settled (install u next (record m { created = next ∷ m.created }))
unfolding install held count
install-Settled u next m h c = ground (arith, h c, count-close_old c m.client m.closed)

connect-Settled : (u : String) (a : Endpoint) (m : Manager) → Settled m → Settled (connect u a m).0
unfolding connect count
connect-Settled u unparsable m h c = h c
connect-Settled u (endpoint next true) m h c = install-Settled u next m h c
connect-Settled u (endpoint next false) m h c = ground (arith, h c)

apply-Settled : (c : Change) (m : Manager) → Settled m → Settled (apply c m)
unfolding apply replace_url close
apply-Settled closes m h c = disconnect-Settled m h c
apply-Settled (replaces u a) m h c =
    ground (arith, disconnect-Settled m h c, connect-Settled u a m h c)

run-Settled : (cs : List Change) (m : Manager) → Settled m → Settled (run m cs)
unfolding run
run-Settled [] m h = h
run-Settled (c ∷ cs) m h = run-Settled cs (apply c m) (apply-Settled c m h)

-- In every history of replacements and closings that starts with a new manager, whether URLs parse
-- and pings answer or not, each client has been created as often as it has been closed, with one
-- more for the client that the manager holds: no client leaks, and none is closed twice.
pub run-new-Settled :
    (cs : List Change) (c : ℕ)
    → let m = run new cs in count c m.created ≡ count c m.closed + held c m.client
unfolding held count
run-new-Settled cs = run-Settled cs new (λ c. refl)

-- A replacement that returns an error leaves the client and the URL in service as they were.
pub replace_url-failed :
    (u : String) (a : Endpoint) (m : Manager) (e : StoreError)
    → (replace_url u a m).1 ≡ some e
    → ((replace_url u a m).0.client ≡ m.client) × ((replace_url u a m).0.url ≡ m.url)
unfolding replace_url connect
replace_url-failed u unparsable m e h = ground arith
replace_url-failed u (endpoint next true) m e h = ground arith
replace_url-failed u (endpoint next false) m e h = ground arith
