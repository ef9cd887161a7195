-- ===== src/Rbac/Session/Opens.antt =====
-- What the validation of a session token finds in the tables.
use d_plane_os.Prelude.{
  arith, ◌≡◌, ◌<◌, refl, ℕ, Str, str, str_eq, str_eq_iff, Bool, true, false, ◌&&◌, Bool-cases,
  Option, Option-cases, some, none, In, inl, inr, List, [], ◌∷◌, if◌then◌else◌,
}
use d_plane_os.Rbac.Session.{
  Session, UserRow, SessionTables, SessionUser, answer, alive, coalesce, is_open_session,
  session_user, find_active, joined_user, validate_session_and_get_user,
}

-- A row of a user with that name, active and with that id, stands in the table.
HasUser : Str → List UserRow → ℕ → Type 0
HasUser username us id =
    (u : UserRow) × (In u us × ((username ≡ u.username) × ((u.active ≡ true) × (u.id ≡ id))))

IsAlive : ℕ → Option ℕ → Type 0
IsAlive now none = Unit
IsAlive now (some e) = now < e

IsActive : Option Str → Type 0
IsActive none = Unit
IsActive (some status) = status ≡ str "active"

-- A token opens a session of an active user: a row of the sessions with that id, without an expiry or with
-- one still to come, without a status or with the status active, and the row of the user that it names.
pub Opens : ℕ → Str → List UserRow → List Session → ℕ → Type 0
unfolding HasUser IsAlive IsActive
Opens now token us ss id =
    (s : Session) × (In s ss
      × ((s.session_id ≡ token)
          × (IsAlive now s.expires_at × (IsActive s.status × HasUser s.username us id))))

and_true : (a b : Bool) → (a && b) ≡ true → (a ≡ true) × (b ≡ true)
and_true true b h = (refl, h)
and_true false b h = cc

alive-IsAlive : (now : ℕ) (e : Option ℕ) → alive now e ≡ true → IsAlive now e
unfolding alive IsAlive
alive-IsAlive now none h = tt
alive-IsAlive now (some e) h = ground (arith, h)

coalesce-IsActive :
    (status : Option Str)
    → str_eq (coalesce status (str "active")) (str "active") ≡ true
    → IsActive status
unfolding coalesce IsActive
coalesce-IsActive none h = tt
coalesce-IsActive (some status) h = (str_eq_iff status (str "active")).0 h

find_active-HasUser :
    (username : Str) (us : List UserRow) (found : SessionUser)
    → find_active username us ≡ some found
    → HasUser username us found.id
unfolding find_active HasUser session_user
find_active-HasUser username [] found h = cc
find_active-HasUser username (u ∷ us) found h =
    elim (Bool-cases (str_eq username u.username && u.active)) [
      | inl e ↦
          let (named, active) = and_true (str_eq username u.username) u.active e in
          let same : some (session_user u) ≡ some found = rw (e, if◌then◌else◌) at h in
          (u, (inl refl, ((str_eq_iff username u.username).0 named, (active, cc same))))
      | inr e ↦
          let (v, (i, facts)) =
            find_active-HasUser username us found (rw (e, if◌then◌else◌) at h) in
          (v, (inr i, facts))
    ]

one_more :
    (now : ℕ) (token : Str) (us : List UserRow) (s : Session) (ss : List Session) (id : ℕ)
    → Opens now token us ss id
    → Opens now token us (s ∷ ss) id
unfolding Opens
one_more now token us s ss id (s', (i, facts)) = (s', (inr i, facts))

joined_user-Opens :
    (now : ℕ) (token : Str) (us : List UserRow) (ss : List Session) (found : SessionUser)
    → joined_user now token us ss ≡ answer found
    → Opens now token us ss found.id
unfolding joined_user Opens is_open_session
joined_user-Opens now token us [] found h = cc
joined_user-Opens now token us (s ∷ ss) found h =
    let later = λ (q : joined_user now token us ss ≡ answer found).
      one_more now token us s ss found.id (joined_user-Opens now token us ss found q) in
    elim (Bool-cases (is_open_session now token s)) [
      | inr e ↦ later (rw (e, if◌then◌else◌) at h)
      | inl e ↦ elim (Option-cases (find_active s.username us)) [
        | inl e' ↦ later (rw (e, if◌then◌else◌, e') at h)
        | inr (u, e') ↦
            let same : answer u ≡ answer found = rw (e, if◌then◌else◌, e') at h in
            let (named, rest) = and_true (str_eq s.session_id token) _ e in
            let (lives, active) = and_true (alive now s.expires_at) _ rest in
            (
              s,
              (
                inl refl,
                (
                  (str_eq_iff s.session_id token).0 named,
                  (
                    alive-IsAlive now s.expires_at lives,
                    (
                      coalesce-IsActive s.status active,
                      find_active-HasUser s.username us found (cc (e', same)),
                    ),
                  ),
                ),
              ),
            )
      ]
    ]

pub validate_session_and_get_user-Opens :
    (now : ℕ) (available : Bool) (token : Str) (t : SessionTables) (found : SessionUser)
    → validate_session_and_get_user now available token (some t) ≡ answer found
    → Opens now token t.users t.sessions found.id
unfolding validate_session_and_get_user
validate_session_and_get_user-Opens now true token t found h =
    joined_user-Opens now token t.users t.sessions found h
validate_session_and_get_user-Opens now false token t found h = cc
