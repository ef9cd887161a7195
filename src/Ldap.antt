-- ===== src/Ldap.antt =====
-- daemon/internal/handlers/ldap_circuit_breaker.go: the circuit breaker in front of LDAP and the
-- cache of credentials. A time and a duration count nanoseconds, the zero time is 0; a time before
-- the one it is compared with has the age 0. The clock is an argument.
pub mod History
pub mod Cache
mod Examples
use d_plane_os.Prelude.{
  ℕ, ◌+◌, ◌-◌, ◌*◌, ltb, leb, Str, str, str_eq, Bool, true, false, ◌&&◌, Option, some, none, List,
  [], ◌∷◌, if◌then◌else◌, length,
}

abbrev pub second : ℕ
second = 1000000000

pub data CircuitState : Type 0 where
  circuit_closed circuit_open circuit_half_open : CircuitState

pub record LdapCircuitBreaker : Type 0 where
  pub state : CircuitState
  pub failures : ℕ
  pub last_failure : ℕ
  pub last_success : ℕ
  pub max_failures : ℕ
  pub reset_timeout : ℕ
  pub request_timeout : ℕ

unfoldable pub initial_breaker : LdapCircuitBreaker
initial_breaker = record {
  state = circuit_closed;
  failures = 0;
  last_failure = 0;
  last_success = 0;
  max_failures = 3;
  reset_timeout = 30 * second;
  request_timeout = 500000000;
}

is_open : CircuitState → Bool
is_open circuit_open = true
is_open circuit_closed = false
is_open circuit_half_open = false

unfoldable pub current_state : ℕ → LdapCircuitBreaker → CircuitState
unfolding is_open
current_state now cb =
    if is_open cb.state && ltb cb.reset_timeout (now - cb.last_failure)
    then circuit_half_open
    else cb.state

unfoldable pub record_success : ℕ → LdapCircuitBreaker → LdapCircuitBreaker
record_success now cb = record cb { failures = 0; state = circuit_closed; last_success = now }

unfoldable pub record_failure : ℕ → LdapCircuitBreaker → LdapCircuitBreaker
record_failure now cb =
    let failed = record cb { failures = cb.failures + 1; last_failure = now } in
    if leb failed.max_failures failed.failures
    then record failed { state = circuit_open }
    else failed

unfoldable pub reset_circuit_breaker : LdapCircuitBreaker → LdapCircuitBreaker
reset_circuit_breaker cb = record cb { state = circuit_closed; failures = 0 }

pub record CachedCredential : Type 0 where
  pub username : Str
  pub password_hash : Str
  pub roles : List Str
  pub cached_at : ℕ
  pub ttl : ℕ

unfoldable pub put_credential : CachedCredential → List CachedCredential → List CachedCredential
unfolding str_eq
put_credential c [] = c ∷ []
put_credential c (d ∷ ds) = if str_eq d.username c.username then c ∷ ds else d ∷ put_credential c ds

unfoldable pub find_credential : Str → List CachedCredential → Option CachedCredential
unfolding str_eq
find_credential u [] = none
find_credential u (c ∷ cs) = if str_eq c.username u then some c else find_credential u cs

unfoldable pub cache_credential :
    ℕ → Str → Str → List Str → List CachedCredential → List CachedCredential
unfolding put_credential
cache_credential now username password_hash roles cache =
    put_credential
      (record {
        username = username;
        password_hash = password_hash;
        roles = roles;
        cached_at = now;
        ttl = 24 * 3600 * second;
      })
      cache

if_valid : ℕ → Option CachedCredential → Option CachedCredential
if_valid now none = none
if_valid now (some c) = if ltb c.ttl (now - c.cached_at) then none else some c

unfoldable pub get_cached_credential : ℕ → Str → List CachedCredential → Option CachedCredential
unfolding find_credential if_valid
get_cached_credential now username cache = if_valid now (find_credential username cache)

-- What GetCircuitBreakerStatus reports.
pub record BreakerStatus : Type 0 where
  pub state : Str
  pub failures : ℕ
  pub max_failures : ℕ
  pub last_failure : ℕ
  pub last_success : ℕ
  pub reset_timeout : ℕ
  pub request_timeout : ℕ
  pub cached_users : ℕ
  pub degraded_mode : Bool

state_text : CircuitState → Str
state_text circuit_closed = str "closed"
state_text circuit_open = str "open"
state_text circuit_half_open = str "half-open"

unfoldable pub circuit_breaker_status :
    ℕ → List CachedCredential → LdapCircuitBreaker → BreakerStatus
unfolding state_text is_open
circuit_breaker_status now cache cb =
    let s = current_state now cb in
    record {
      state = state_text s;
      failures = cb.failures;
      max_failures = cb.max_failures;
      last_failure = cb.last_failure;
      last_success = cb.last_success;
      reset_timeout = cb.reset_timeout;
      request_timeout = cb.request_timeout;
      cached_users = length cache;
      degraded_mode = is_open s;
    }
