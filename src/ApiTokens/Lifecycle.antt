-- ===== src/ApiTokens/Lifecycle.antt =====
-- A token from its creation to its use.
use d_plane_os.Prelude.{
  ◌≡◌, refl, ap, sym, ◌∙◌, ℕ, zero, suc, ℤ, Option-cases, ltb, Str, str_eq, str_eq_self, split,
  byte_length, any, true, false, Bool-cases, Option, some, none, inl, inr, List, [], ◌∷◌, ◌++◌,
  arith,
}
use d_plane_os.ApiTokens.{
  TokenRow, UserRow, Database, Env, Answer, answer, token_prefix, full_token, find_user, find_token,
  scan_option, found_row, is_expired, expiry_of, accept, new_row, validate_api_token,
  first_bad_scope, scopes_or_read, is_taken, insert_token, generated, scoped, create_token,
}

-- A row that stands first and has the hash of the text is the one that is found.
find_token-first :
    (env : Env) (hash : Str) (t : TokenRow) (ts : List TokenRow) (us : List UserRow) (u : UserRow)
    → t.token_hash ≡ hash
    → find_user t.user_id us ≡ some u
    → find_token env hash (t ∷ ts) us ≡ some (found_row env t u)
unfolding find_token
find_token-first env hash t ts us u same found = simp (same, str_eq_self hash, found)

-- The text of a row that stands first is accepted for the user of the row.
validate-first :
    (later : Env) (hex : Str) (t : TokenRow) (ts : List TokenRow) (us : List UserRow) (n : ℕ)
    (u : UserRow)
    → later.available ≡ true
    → t.token_hash ≡ later.hash_token (full_token hex)
    → find_user t.user_id us ≡ some u
    → is_expired later (scan_option later t.expires_at) ≡ false
    → (validate_api_token later
        (full_token hex)
        (record { tokens = t ∷ ts; users = us; next_id = n })).0
      ≡ answer (t.user_id, u.username)
unfolding validate_api_token full_token accept found_row
validate-first later hex t ts us n u up same found open_until = simp (
  up,
  find_token-first later (later.hash_token (token_prefix ++ hex)) t ts us u same found,
  open_until,
)

-- What insertion returns when its constraints hold.
insert_token-inserted :
    (env : Env) (user : ℕ) (days : ℤ) (name scopes hex : Str) (db : Database)
    → env.available ≡ true
    → any (is_taken user name (env.hash_token (full_token hex))) db.tokens ≡ false
    → insert_token env user name scopes days hex db ≡ (
      answer (full_token hex),
      record db {
        tokens = new_row env db.next_id user name scopes days hex ∷ db.tokens;
        next_id = suc db.next_id;
      },
    )
unfolding insert_token
insert_token-inserted env user days name scopes hex db on free = simp (on, free)

-- A result that holds the new row in front is accepted.
inserted-validate :
    (env later : Env) (user : ℕ) (days : ℤ) (name scopes hex token : Str) (db : Database)
    (u : UserRow) (r : Answer Str × Database)
    → r ≡ (
      answer (full_token hex),
      record db {
        tokens = new_row env db.next_id user name scopes days hex ∷ db.tokens;
        next_id = suc db.next_id;
      },
    )
    → r.0 ≡ answer token
    → later.hash_token ≡ env.hash_token
    → later.available ≡ true
    → find_user user db.users ≡ some u
    → is_expired later (scan_option later (expiry_of env days)) ≡ false
    → (validate_api_token later token r.1).0 ≡ answer (user, u.username)
unfolding new_row
inserted-validate env later user days name scopes hex token db u r e h same up found open_until =
    let full : full_token hex ≡ token = cc in
    rw e (
      rw⁻¹ full (
        validate-first later hex (new_row env db.next_id user name scopes days hex) db.tokens
          db.users (suc db.next_id) u up (ap (λ (f : Str → Str). f (full_token hex)) (sym same))
          found open_until))

-- What is inserted is accepted.
insert_token-validate :
    (env later : Env) (user : ℕ) (days : ℤ) (name scopes hex token : Str) (db : Database)
    (u : UserRow)
    → (insert_token env user name scopes days hex db).0 ≡ answer token
    → later.hash_token ≡ env.hash_token
    → later.available ≡ true
    → find_user user db.users ≡ some u
    → is_expired later (scan_option later (expiry_of env days)) ≡ false
    → (validate_api_token later token (insert_token env user name scopes days hex db).1).0
      ≡ answer (user, u.username)
unfolding insert_token
insert_token-validate env later user days name scopes hex token db u h same up found open_until =
    elim (Bool-cases env.available) [
      | inr off ↦ ground arith
      | inl on ↦
          elim (Bool-cases (any (is_taken user name (env.hash_token (full_token hex))) db.tokens)) [
            | inl taken ↦ ground arith
            | inr free ↦
                inserted-validate env later user days name scopes hex token db u
                  (insert_token env user name scopes days hex db)
                  (insert_token-inserted env user days name scopes hex db on free) h same up found
                  open_until
          ]
    ]

generated-validate :
    (env later : Env) (user : ℕ) (days : ℤ) (name scopes token : Str) (hex : Option Str)
    (db : Database) (u : UserRow)
    → (generated env user name scopes days hex db).0 ≡ answer token
    → later.hash_token ≡ env.hash_token
    → later.available ≡ true
    → find_user user db.users ≡ some u
    → is_expired later (scan_option later (expiry_of env days)) ≡ false
    → (validate_api_token later token (generated env user name scopes days hex db).1).0
      ≡ answer (user, u.username)
unfolding generated
generated-validate env later user days name scopes token none db u h same up found open_until = cc
generated-validate env later user days name scopes token (some hex) db u h same up found
      open_until =
    insert_token-validate env later user days name scopes hex token db u h same up found open_until

scoped-validate :
    (env later : Env) (user : ℕ) (days : ℤ) (name scopes token : Str) (bad : Option Str)
    (db : Database) (u : UserRow)
    → (scoped env user name scopes days bad db).0 ≡ answer token
    → later.hash_token ≡ env.hash_token
    → later.available ≡ true
    → find_user user db.users ≡ some u
    → is_expired later (scan_option later (expiry_of env days)) ≡ false
    → (validate_api_token later token (scoped env user name scopes days bad db).1).0
      ≡ answer (user, u.username)
unfolding scoped
scoped-validate env later user days name scopes token (some s) db u h same up found open_until = cc
scoped-validate env later user days name scopes token none db u h same up found open_until =
    generated-validate env later user days name scopes token env.random db u h same up found
      open_until

-- What creation does with a name that is admitted.
create_token-scoped :
    (env : Env) (user : ℕ) (days : ℤ) (name scopes : Str) (db : Database)
    → str_eq name [] ≡ false
    → ltb 64 (byte_length name) ≡ false
    → create_token env user name scopes days db
      ≡ scoped env user name
          (scopes_or_read scopes)
          days
          (first_bad_scope (split b',' (scopes_or_read scopes)))
          db
unfolding create_token
create_token-scoped env user days name scopes db named short = simp (named, short)

-- A created token is accepted as long as its expiry, as it is scanned, does not count as past.
unexpired-validate :
    (env later : Env) (user : ℕ) (days : ℤ) (name scopes token : Str) (db : Database) (u : UserRow)
    → (create_token env user name scopes days db).0 ≡ answer token
    → later.hash_token ≡ env.hash_token
    → later.available ≡ true
    → find_user user db.users ≡ some u
    → is_expired later (scan_option later (expiry_of env days)) ≡ false
    → (validate_api_token later token (create_token env user name scopes days db).1).0
      ≡ answer (user, u.username)
unfolding create_token
unexpired-validate env later user days name scopes token db u h same up found open_until =
    elim (Bool-cases (str_eq name [])) [
      | inl empty ↦ ground arith
      | inr named ↦ elim (Bool-cases (ltb 64 (byte_length name))) [
        | inl long ↦ ground arith
        | inr short ↦
            let e = create_token-scoped env user days name scopes db named short in
            rw e (
              scoped-validate env later user days name (scopes_or_read scopes) token
                (first_bad_scope (split b',' (scopes_or_read scopes))) db u (rw⁻¹ e h) same up found
                open_until)
      ]
    ]

-- The character at a place.
abbrev pub char_at : ℕ → Str → Option ℕ
char_at n [] = none
char_at zero (c ∷ s) = some c
char_at (suc n) (c ∷ s) = char_at n s

space_ne_t : ¬ (◌≡◌ {A = Option ℕ} (some b' ') (some b'T'))
space_ne_t h = cc

-- A text with a T where the layout has a space does not count as past.
is_expired-scanned :
    (env : Env) (e : Option Str)
    → ((s : Str) (t : ℕ) → env.parse_time s ≡ some t → char_at 10 s ≡ some b' ')
    → ((s : Str) → char_at 10 (env.scan_time s) ≡ some b'T')
    → is_expired env (scan_option env e) ≡ false
unfolding is_expired scan_option
is_expired-scanned env none layout scan = refl
is_expired-scanned env (some e) layout scan = elim (Bool-cases (str_eq (env.scan_time e) [])) [
  | inl empty ↦ simp (empty)
  | inr full ↦ elim (Option-cases (env.parse_time (env.scan_time e))) [
    | inl refused ↦ simp (full, refused)
    | inr (t, read) ↦
        let space : ◌≡◌ {A = Option ℕ} (some b' ') (some b'T') =
          sym (layout (env.scan_time e) t read) ∙ scan e in
        absurd (space_ne_t space)
  ]
]

-- Where time.Parse with the layout 2006-01-02 15:04:05 reads only texts whose eleventh character is a
-- space, and the driver gives the text of a DATETIME column as RFC 3339, with a T there, a token that was
-- created, for whatever number of days, is accepted at any time on the database that its creation
-- leaves, for the user that it was created for, when that user is active, the database answers, and
-- texts are hashed the same way.
pub create_token-validate :
    (env later : Env) (user : ℕ) (days : ℤ) (name scopes token : Str) (db : Database) (u : UserRow)
    → ((s : Str) (t : ℕ) → later.parse_time s ≡ some t → char_at 10 s ≡ some b' ')
    → ((s : Str) → char_at 10 (later.scan_time s) ≡ some b'T')
    → (create_token env user name scopes days db).0 ≡ answer token
    → later.hash_token ≡ env.hash_token
    → later.available ≡ true
    → find_user user db.users ≡ some u
    → (validate_api_token later token (create_token env user name scopes days db).1).0
      ≡ answer (user, u.username)
create_token-validate env later user days name scopes token db u layout scan h same up found =
    unexpired-validate env later user days name scopes token db u h same up found
      (is_expired-scanned later (expiry_of env days) layout scan)
