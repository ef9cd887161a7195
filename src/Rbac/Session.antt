-- ===== src/Rbac/Session.antt =====
-- Sessions: daemon/internal/security/session.go. Times count seconds; `available` says whether the
-- database answers, and no tables at all stand for a database that was not initialised.
pub mod Opens
use d_plane_os.Prelude.{
  ℕ, ◌==◌, ◌-◌, ◌*◌, ltb, Str, str, str_eq, Bool, true, false, not, ◌&&◌, ◌||◌, Option, some, none,
  List, [], ◌∷◌, map, any, filter, if◌then◌else◌,
}

pub record Session : Type 0 where
  pub session_id : Str
  pub username : Str
  pub expires_at : Option ℕ
  pub last_activity : ℕ
  pub status : Option Str

pub record UserRow : Type 0 where
  pub id : ℕ
  pub username : Str
  pub email : Option Str
  pub active : Bool

pub record SessionTables : Type 0 where
  pub sessions : List Session
  pub users : List UserRow

pub record SessionUser : Type 0 where
  pub id : ℕ
  pub username : Str
  pub email : Str

pub data SessionError : Type 0 where
  database_not_initialized session_validation_failed session_not_found failed_to_get_user
        user_validation_failed invalid_session :
      SessionError

pub data Answer (A : Type 0) : Type 0 where
  answer : A → Answer A
  failed : SessionError → Answer A

abbrev pub idle_timeout : ℕ
idle_timeout = 30 * 60

-- expires_at IS NULL OR expires_at > now
unfoldable pub alive : ℕ → Option ℕ → Bool
alive now none = true
alive now (some e) = ltb now e

unfoldable pub is_valid_session : ℕ → Str → Str → Session → Bool
unfolding alive str_eq
is_valid_session now session_id username s =
    str_eq s.session_id session_id
    && (str_eq s.username username
        && (alive now s.expires_at
            && ((s.last_activity == 0) || ltb (now - s.last_activity) idle_timeout)))

touch : ℕ → Str → Session → Session
unfolding str_eq
touch now session_id s =
    if str_eq s.session_id session_id then record s { last_activity = now } else s

-- A valid session is touched.
validated : ℕ → Str → Str → SessionTables → Answer Bool × SessionTables
unfolding is_valid_session touch
validated now session_id username t =
    if any (is_valid_session now session_id username) t.sessions
    then (answer true, record t { sessions = map (touch now session_id) t.sessions })
    else (answer false, t)

unfoldable pub validate_session :
    ℕ → Bool → Str → Str → Option SessionTables → Answer Bool × Option SessionTables
unfolding validated
validate_session now available session_id username none = (failed database_not_initialized, none)
validate_session now available session_id username (some t) =
    if not available
    then (failed session_validation_failed, some t)
    else let (valid, t') = validated now session_id username t in (valid, some t')

-- The name in the first row that a query selects.
username_of : List Session → Answer Str
username_of [] = failed session_not_found
username_of (s ∷ ss) = answer s.username

unfoldable pub get_user_from_session : ℕ → Bool → Str → Option SessionTables → Answer Str
unfolding username_of alive str_eq
get_user_from_session now available session_id none = failed database_not_initialized
get_user_from_session now available session_id (some t) =
    if not available
    then failed failed_to_get_user
    else username_of (
        filter (λ (s : Session). str_eq s.session_id session_id && alive now s.expires_at)
          t.sessions)

unfoldable pub validate_user : Bool → Str → Option SessionTables → Answer Bool
unfolding str_eq
validate_user available username none = failed database_not_initialized
validate_user available username (some t) =
    if not available
    then failed user_validation_failed
    else answer (any (λ (u : UserRow). str_eq u.username username && u.active) t.users)

-- COALESCE(text, default)
unfoldable pub coalesce : Option Str → Str → Str
coalesce none default = default
coalesce (some s) default = s

unfoldable pub is_open_session : ℕ → Str → Session → Bool
unfolding alive coalesce str_eq str
is_open_session now token s =
    str_eq s.session_id token
    && (alive now s.expires_at && str_eq (coalesce s.status (str "active")) (str "active"))

session_user : UserRow → SessionUser
unfolding coalesce
session_user u = record { id = u.id; username = u.username; email = coalesce u.email [] }

find_active : Str → List UserRow → Option SessionUser
unfolding session_user str_eq
find_active username [] = none
find_active username (u ∷ us) =
    if str_eq username u.username && u.active
    then some (session_user u)
    else find_active username us

-- The first row of the join.
joined_user : ℕ → Str → List UserRow → List Session → Answer SessionUser
unfolding find_active is_open_session
joined_user now token us [] = failed invalid_session
joined_user now token us (s ∷ ss) =
    let rest = joined_user now token us ss in
    if is_open_session now token s
    then elim (find_active s.username us) [ some u ↦ answer u | none ↦ rest ]
    else rest

unfoldable pub validate_session_and_get_user :
    ℕ → Bool → Str → Option SessionTables → Answer SessionUser
unfolding joined_user
validate_session_and_get_user now available token none = failed database_not_initialized
validate_session_and_get_user now available token (some t) =
    if not available
    then failed session_validation_failed
    else joined_user now token t.users t.sessions
