-- ===== src/ApiTokens/Examples.antt =====
-- A token of a small database, for daemon/internal/handlers/api_tokens.go.
use d_plane_os.Prelude.{
  ◌≡◌, refl, ℕ, none, Str, arith, ◌==◌, Option, pos, if◌then◌else◌, str, trim_space, true, some, [],
  ◌∷◌,
}
use d_plane_os.ApiTokens.{
  UserRow, Database, Env, answer, find_user, validate_api_token, create_token,
}
use d_plane_os.ApiTokens.Lifecycle.{char_at, create_token-validate}

-- The layout wants a space as eleventh character, and every expiry lies in the past.
parse_spaced : Str → Option ℕ
parse_spaced s = elim (char_at 10 s) [ none ↦ none | some c ↦ if c == b' ' then some 5 else none ]

parse_spaced-char_at : (s : Str) (t : ℕ) → parse_spaced s ≡ some t → char_at 10 s ≡ some b' '
unfolding parse_spaced
parse_spaced-char_at s t h = ground arith

abbrev env : Env
env = record {
  hash_token = λ s. s;
  random = some (str "0123456789");
  now = 100;
  timestamp = str "2026-01-01 00:00:00";
  parse_time = parse_spaced;
  expiry = λ days. str "2026-01-02 00:00:00";
  scan_time = λ s. str "2026-01-02T00:00:00Z";
  strftime = some;
  available = true;
}

scanned : (s : Str) → char_at 10 (env.scan_time s) ≡ some b'T'
unfolding str
scanned s = refl

abbrev ann : UserRow
ann = record { id = 7; username = str "ann"; active = true }

abbrev db : Database
db = record { tokens = []; users = ann ∷ []; next_id = 1 }

-- The token was to expire in 30 days.
create_token-validate_example :
    (validate_api_token env
      (str "dpl_0123456789")
      (create_token env 7 (str "ci") (str "read,write") (pos 30) db).1).0
    ≡ answer (7, str "ann")
unfolding create_token find_user trim_space
create_token-validate_example =
    create_token-validate env env 7 (pos 30) (str "ci") (str "read,write") (str "dpl_0123456789") db
      ann parse_spaced-char_at scanned refl refl refl refl
