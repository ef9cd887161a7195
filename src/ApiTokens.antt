-- ===== src/ApiTokens.antt =====
-- daemon/internal/handlers/api_tokens.go: the tokens for automation. SHA-256 with hexadecimal digits, the
-- random digits, time.Parse, the text of an expiry, strftime of SQLite and what the driver of the
-- database makes of the text of a DATETIME column are parameters; the table has a unique hash and a
-- unique pair of user and name. The clock of the database is the text that CURRENT_TIMESTAMP gives.
pub mod Lifecycle
mod Examples
use d_plane_os.Prelude.{
  ℕ, zero, suc, ℤ, pos, negsuc, ◌==◌, ltb, Str, str, str_eq, member, has_prefix, split, trim_space,
  byte_length, Bool, true, false, not, ◌&&◌, ◌||◌, Option, some, none, List, [], ◌∷◌, ◌++◌, map,
  any, filter, if◌then◌else◌,
}

pub record TokenRow : Type 0 where
  pub id : ℕ
  pub user_id : ℕ
  pub name : Str
  pub token_hash : Str
  pub token_prefix : Str
  pub scopes : Str
  pub expires_at : Option Str
  pub last_used : Option Str
  pub created_at : Str

pub record UserRow : Type 0 where
  pub id : ℕ
  pub username : Str
  pub active : Bool

pub record Database : Type 0 where
  pub tokens : List TokenRow
  pub users : List UserRow
  pub next_id : ℕ

-- A row of the query of ValidateAPIToken, as it was scanned.
pub record Found : Type 0 where
  pub user_id : ℕ
  pub username : Str
  pub expires_at : Option Str

-- An entry of a listing, whose times went through strftime.
pub record ListedToken : Type 0 where
  pub id : ℕ
  pub name : Str
  pub prefix : Str
  pub scopes : Str
  pub last_used : Option Str
  pub expires_at : Option Str
  pub created_at : Option Str

-- `random` is what 32 random bytes print as, `none` for an error; `expiry` is the text of the moment in
-- that many days in the layout 2006-01-02 15:04:05, which `parse_time` reads; `scan_time` is what a
-- scan into a text gives for a DATETIME column with that text.
pub record Env : Type 0 where
  pub hash_token : Str → Str
  pub random : Option Str
  pub now : ℕ
  pub timestamp : Str
  pub parse_time : Str → Option ℕ
  pub expiry : ℕ → Str
  pub scan_time : Str → Str
  pub strftime : Str → Option Str
  pub available : Bool

pub data TokenError : Type 0 where
  not_an_api_token invalid_token database_error token_expired : TokenError
  name_required name_too_long no_random name_taken id_required token_not_found : TokenError
  invalid_scope : Str → TokenError

pub data Answer (A : Type 0) : Type 0 where
  answer : A → Answer A
  failed : TokenError → Answer A

token_prefix : Str
unfolding str
token_prefix = str "dpl_"

-- s[:n] for a text of at least n characters
first_digits : ℕ → Str → Str
first_digits zero s = []
first_digits (suc n) [] = []
first_digits (suc n) (c ∷ s) = c ∷ first_digits n s

unfoldable pub full_token : Str → Str
unfolding token_prefix
full_token hex = token_prefix ++ hex

-- The join of a token with its active user.
unfoldable pub find_user : ℕ → List UserRow → Option UserRow
find_user id [] = none
find_user id (u ∷ us) = if (u.id == id) && u.active then some u else find_user id us

unfoldable pub scan_option : Env → Option Str → Option Str
scan_option env none = none
scan_option env (some e) = some (env.scan_time e)

unfoldable pub found_row : Env → TokenRow → UserRow → Found
unfolding scan_option
found_row env t u = record {
  user_id = t.user_id;
  username = u.username;
  expires_at = scan_option env t.expires_at;
}

unfoldable pub find_token : Env → Str → List TokenRow → List UserRow → Option Found
unfolding find_user str_eq found_row
find_token env hash [] us = none
find_token env hash (t ∷ ts) us =
    let rest = find_token env hash ts us in
    if str_eq t.token_hash hash
    then elim (find_user t.user_id us) [ some u ↦ some (found_row env t u) | none ↦ rest ]
    else rest

-- A text that time.Parse refuses counts as no expiry.
unfoldable pub is_expired : Env → Option Str → Bool
unfolding str_eq
is_expired env none = false
is_expired env (some e) =
    if str_eq e [] then false else elim (env.parse_time e) [ none ↦ false | some t ↦ ltb t env.now ]

touch : Str → Str → TokenRow → TokenRow
unfolding str_eq
touch hash now t = if str_eq t.token_hash hash then record t { last_used = some now } else t

unfoldable pub accept : Env → Database → Str → Option Found → Answer (ℕ × Str) × Database
unfolding is_expired touch
accept env db hash none = (failed invalid_token, db)
accept env db hash (some r) = if is_expired env r.expires_at then (failed token_expired, db) else (
  answer (r.user_id, r.username),
  record db { tokens = map (touch hash env.timestamp) db.tokens },
)

-- The scopes of the row are read and dropped.
unfoldable pub validate_api_token : Env → Str → Database → Answer (ℕ × Str) × Database
unfolding accept find_token has_prefix token_prefix
validate_api_token env token db =
    if not (has_prefix token_prefix token)
    then (failed not_an_api_token, db)
    else if not env.available
    then (failed database_error, db)
    else accept env db (env.hash_token token)
        (find_token env (env.hash_token token) db.tokens db.users)

abbrev valid_scopes : List Str
valid_scopes = str "read" ∷ str "write" ∷ str "admin" ∷ []

first_bad_scope : List Str → Option Str
unfolding member
first_bad_scope [] = none
first_bad_scope (s ∷ ss) =
    if not (member (trim_space s) valid_scopes) then some s else first_bad_scope ss

scopes_or_read : Str → Str
unfolding str
scopes_or_read [] = str "read"
scopes_or_read (c ∷ s) = c ∷ s

-- Days that are not positive give no expiry.
unfoldable pub expiry_of : Env → ℤ → Option Str
expiry_of env (negsuc n) = none
expiry_of env (pos zero) = none
expiry_of env (pos (suc days)) = some (env.expiry (suc days))

-- The row of a token whose text is given without its prefix.
unfoldable pub new_row : Env → ℕ → ℕ → Str → Str → ℤ → Str → TokenRow
unfolding expiry_of full_token first_digits
new_row env id user name scopes days hex = record {
  id = id;
  user_id = user;
  name = name;
  token_hash = env.hash_token (full_token hex);
  token_prefix = first_digits 8 hex;
  scopes = scopes;
  expires_at = expiry_of env days;
  last_used = none;
  created_at = env.timestamp;
}

-- The statement of insertion: its constraints on the hash and on the name.
is_taken : ℕ → Str → Str → TokenRow → Bool
unfolding str_eq
is_taken user name hash t = str_eq t.token_hash hash || ((t.user_id == user) && str_eq t.name name)

unfoldable pub insert_token : Env → ℕ → Str → Str → ℤ → Str → Database → Answer Str × Database
unfolding is_taken full_token new_row
insert_token env user name scopes days hex db =
    if not env.available
    then (failed database_error, db)
    else if any (is_taken user name (env.hash_token (full_token hex))) db.tokens
    then (failed name_taken, db)
    else (
      answer (full_token hex),
      record db {
        tokens = new_row env db.next_id user name scopes days hex ∷ db.tokens;
        next_id = suc db.next_id;
      },
    )

unfoldable pub generated : Env → ℕ → Str → Str → ℤ → Option Str → Database → Answer Str × Database
unfolding insert_token
generated env user name scopes days none db = (failed no_random, db)
generated env user name scopes days (some hex) db = insert_token env user name scopes days hex db

unfoldable pub scoped : Env → ℕ → Str → Str → ℤ → Option Str → Database → Answer Str × Database
unfolding generated
scoped env user name scopes days (some s) db = (failed (invalid_scope s), db)
scoped env user name scopes days none db = generated env user name scopes days env.random db

-- The new token, which is shown once.
unfoldable pub create_token : Env → ℕ → Str → Str → ℤ → Database → Answer Str × Database
unfolding scoped first_bad_scope scopes_or_read split byte_length str_eq
create_token env user name scopes days db =
    if str_eq name []
    then (failed name_required, db)
    else if ltb 64 (byte_length name)
    then (failed name_too_long, db)
    else scoped env user name (scopes_or_read scopes) days
        (first_bad_scope (split b',' (scopes_or_read scopes))) db

is_own : ℕ → ℕ → TokenRow → Bool
is_own token user t = (t.id == token) && (t.user_id == user)

unfoldable pub revoke_by_id : Env → ℕ → ℕ → Database → Answer (Unit {0}) × Database
unfolding is_own
revoke_by_id env token user db =
    if token == 0
    then (failed id_required, db)
    else if not env.available
    then (failed database_error, db)
    else if not (any (is_own token user) db.tokens)
    then (failed token_not_found, db)
    else (
      answer tt,
      record db { tokens = filter (λ (t : TokenRow). not (is_own token user t)) db.tokens },
    )

strftime_option : Env → Option Str → Option Str
strftime_option env none = none
strftime_option env (some t) = env.strftime t

listed : Env → TokenRow → ListedToken
unfolding strftime_option
listed env t = record {
  id = t.id;
  name = t.name;
  prefix = t.token_prefix;
  scopes = t.scopes;
  last_used = strftime_option env t.last_used;
  expires_at = strftime_option env t.expires_at;
  created_at = env.strftime t.created_at;
}

-- The rows stand with the newest first.
unfoldable pub list_tokens : Env → ℕ → Database → Answer (List ListedToken)
unfolding listed
list_tokens env user db =
    if not env.available
    then failed database_error
    else answer (map (listed env) (filter (λ (t : TokenRow). t.user_id == user) db.tokens))
