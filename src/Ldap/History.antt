-- ===== src/Ldap/History.antt =====
-- The state of the breaker as a function of what happened, without its fields.
use d_plane_os.Prelude.{ℕ, suc, ◌-◌, ◌*◌, ◌≤◌, ◌<◌, ◌≡◌, ◌↔◌, List, [], ◌∷◌, arith}
use d_plane_os.Ldap.{
  second, CircuitState, circuit_closed, circuit_open, circuit_half_open, LdapCircuitBreaker,
  initial_breaker, is_open, current_state, record_success, record_failure, reset_circuit_breaker,
}

pub data Event : Type 0 where
  succeeded failed : ℕ → Event
  reset : Event

abbrev pub step : Event → LdapCircuitBreaker → LdapCircuitBreaker
step (succeeded now) cb = record_success now cb
step (failed now) cb = record_failure now cb
step reset cb = reset_circuit_breaker cb

-- The breaker after a past, whose latest event stands first.
unfoldable pub after : List Event → LdapCircuitBreaker
after [] = initial_breaker
after (e ∷ past) = step e (after past)

-- The failures since the latest success or reset, and the time of the latest failure of all.
abbrev pub failures_in_row : List Event → ℕ
failures_in_row [] = 0
failures_in_row (failed now ∷ past) = suc (failures_in_row past)
failures_in_row (succeeded now ∷ past) = 0
failures_in_row (reset ∷ past) = 0

abbrev pub latest_failure : List Event → ℕ
latest_failure [] = 0
latest_failure (failed now ∷ past) = now
latest_failure (succeeded now ∷ past) = latest_failure past
latest_failure (reset ∷ past) = latest_failure past

record Tracks (row latest : ℕ) (cb : LdapCircuitBreaker) : Type 0 where
  counted : cb.failures ≡ row
  latest_seen : cb.last_failure ≡ latest
  three : cb.max_failures ≡ 3
  half_minute : cb.reset_timeout ≡ 30 * second
  closed : row < 3 → cb.state ≡ circuit_closed
  opened : 3 ≤ row → cb.state ≡ circuit_open

initial_breaker-Tracks : Tracks 0 0 initial_breaker
unfolding initial_breaker
initial_breaker-Tracks = ground arith

record_failure-Tracks :
    (now row latest : ℕ) (cb : LdapCircuitBreaker)
    → Tracks row latest cb
    → Tracks (suc row) now (record_failure now cb)
unfolding record_failure
record_failure-Tracks now row latest cb h = ground arith

after-Tracks :
    (past : List Event) → Tracks (failures_in_row past) (latest_failure past) (after past)
unfolding after record_success reset_circuit_breaker
after-Tracks [] = initial_breaker-Tracks
after-Tracks (failed now ∷ past) = record_failure-Tracks now _ _ (after past) (after-Tracks past)
after-Tracks (succeeded now ∷ past) = let h = after-Tracks past in ground arith
after-Tracks (reset ∷ past) = let h = after-Tracks past in ground arith

-- When the three answers of State come.
pub record Decides (row age : ℕ) (s : CircuitState) : Type 0 where
  pub closed : (s ≡ circuit_closed) ↔ (row < 3)
  pub opened : (s ≡ circuit_open) ↔ ((3 ≤ row) × (age ≤ 30 * second))
  pub half_open : (s ≡ circuit_half_open) ↔ ((3 ≤ row) × (30 * second < age))

current_state-Decides :
    (now row latest : ℕ) (cb : LdapCircuitBreaker)
    → Tracks row latest cb
    → Decides row (now - latest) (current_state now cb)
unfolding current_state is_open
current_state-Decides now row latest cb h = ground arith

-- After any past of successes, failures and resets, at any time: State answers closed exactly if
-- fewer than three failures came since the latest success or reset; open exactly if three or more
-- came and the latest failure is at most 30 seconds old; and half-open exactly if three or more came
-- and it is older.
pub current_state-after :
    (now : ℕ) (past : List Event)
    → Decides (failures_in_row past) (now - latest_failure past) (current_state now (after past))
current_state-after now past =
    current_state-Decides now (failures_in_row past) (latest_failure past) (after past)
      (after-Tracks past)
