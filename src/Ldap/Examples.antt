-- ===== src/Ldap/Examples.antt =====
-- A breaker that trips, and a cached user.
use d_plane_os.Prelude.{◌-◌, ◌*◌, ◌≡◌, str, str_eq, if◌then◌else◌, List, [], ◌∷◌}
use d_plane_os.Ldap.{
  second, CachedCredential, current_state, cache_credential, get_cached_credential,
}
use d_plane_os.Ldap.History.{
  Event, failed, succeeded, reset, after, failures_in_row, latest_failure, Decides,
  current_state-after,
}
use d_plane_os.Ldap.Cache.{fresh, cache_credential-get}

abbrev past : List Event
past = failed 9 ∷ failed 8 ∷ failed 7 ∷ reset ∷ succeeded 2 ∷ failed 1 ∷ []

current_state-after_example :
    Decides
      (failures_in_row past)
      (60 * second - latest_failure past)
      (current_state (60 * second) (after past))
current_state-after_example = current_state-after (60 * second) past

abbrev cached : List CachedCredential
cached = cache_credential 5 (str "u") (str "h") [] []

cache_credential-get_example : get_cached_credential 6 (str "v") cached ≡ (
    if str_eq (str "u") (str "v")
    then fresh 5 6 (str "u") (str "h") []
    else get_cached_credential 6 (str "v") [])
cache_credential-get_example = cache_credential-get 5 6 (str "u") (str "h") (str "v") [] []
