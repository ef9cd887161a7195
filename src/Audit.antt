-- ===== src/Audit.antt =====
-- daemon/internal/audit/chain.go and buffered_logger.go, and the verification of the chain in
-- daemon/internal/handlers/audit_verify.go. The HMAC of the standard library is a parameter, and so
-- are the answers of SQLite; the table audit_logs is its rows in the order of their ids.
pub mod Intact
pub mod Verified
pub mod Forgery
mod Examples
use d_plane_os.Prelude.{
  ℕ, zero, suc, ◌+◌, ◌-◌, ◌≤◌, ltb, leb, ◌==◌, Str, str, str_eq, member, decimal, Bool, true, false,
  not, ◌&&◌, Option, some, none, List, [], ◌∷◌, ◌++◌, length, if◌then◌else◌, ℤ, pos, negsuc,
}

pub record AuditEvent : Type 0 where
  pub timestamp : ℤ
  pub user : Str
  pub action : Str
  pub resource : Str
  pub details : Str
  pub ip_address : Str
  pub success : Bool

pub record Row : Type 0 where
  pub id : ℕ
  pub event : AuditEvent
  pub prev_hash : Str
  pub row_hash : Str

-- "%d" and "%v"
int_text : ℤ → Str
int_text (pos n) = decimal n
int_text (negsuc n) = b'-' ∷ decimal (suc n)

bool_text : Bool → Str
bool_text true = str "true"
bool_text false = str "false"

-- The text under the MAC: prevHash|ts|user|action|resource|details|ipAddress|success.
unfoldable pub message : Str → AuditEvent → Str
unfolding int_text bool_text
message prev e =
    prev
    ++ (b'|'
        ∷ (int_text e.timestamp
            ++ (b'|'
                ∷ (e.user
                    ++ (b'|'
                        ∷ (e.action
                            ++ (b'|'
                                ∷ (e.resource
                                    ++ (b'|'
                                        ∷ (e.details
                                            ++ (b'|'
                                                ∷ (e.ip_address
                                                    ++ (b'|' ∷ bool_text e.success)))))))))))))

unfoldable pub is_nil : Str → Bool
is_nil [] = true
is_nil (c ∷ s) = false

-- `mac key text` is the hexadecimal HMAC-SHA256.
module _ (mac : Str → Str → Str) where
  unfoldable pub compute_row_hash : Str → Str → AuditEvent → Str
  unfolding is_nil
  compute_row_hash key prev e = if is_nil key then [] else mac key (message prev e)

  unfoldable pub verify_compute_hash : Str → Str → AuditEvent → Str
  verify_compute_hash key prev e = mac key (message prev e)

-- What the logger keeps, with the table that it writes to. A nil key is the empty one.
pub record BufferedLogger : Type 0 where
  pub buffer : List AuditEvent
  pub max_buffer : ℕ
  pub hmac_key : Str
  pub rows : List Row

-- How one transaction goes: whether it begins, whether it can read the last hash, whether its
-- statement is prepared, whether each insertion is made and with which id, and whether it is
-- committed.
pub record Transaction : Type 0 where
  pub begins : Bool
  pub reads : Bool
  pub prepares : Bool
  pub inserts : List Row → AuditEvent → Option ℕ
  pub commits : Bool

-- SELECT COALESCE(row_hash,'') … ORDER BY id DESC LIMIT 1; "" where there is no row
unfoldable pub last_hash : Str → List Row → Str
last_hash h [] = h
last_hash h (r ∷ rs) = last_hash r.row_hash rs

-- NewBufferedLogger; the interval of the ticker is not kept.
max_or_default : ℤ → ℕ
max_or_default (pos zero) = 100
max_or_default (pos (suc n)) = suc n
max_or_default (negsuc n) = 100

unfoldable pub new_buffered_logger : List Row → ℤ → Str → BufferedLogger
unfolding max_or_default
new_buffered_logger rows max key = record {
  buffer = [];
  max_buffer = max_or_default max;
  hmac_key = key;
  rows = rows;
}

unfoldable pub security_actions : List Str
security_actions =
    str "login"
    ∷ str "login_failed"
    ∷ str "logout"
    ∷ str "auth_failed"
    ∷ str "permission_denied"
    ∷ str "user_created"
    ∷ str "user_deleted"
    ∷ str "password_changed"
    ∷ str "token_created"
    ∷ str "token_revoked"
    ∷ []

module _ (mac : Str → Str → Str) where
  -- The loop over the events: `prev` is the hash to continue from.
  unfoldable pub insert_all : Str → Transaction → Str → List Row → List AuditEvent → List Row
  insert_all key tx prev rows [] = rows
  insert_all key tx prev rows (e ∷ es) = elim (tx.inserts rows e) [
    | none ↦ insert_all key tx prev rows es
    | some n ↦
        insert_all key tx (compute_row_hash mac key prev e)
          (rows
            ++ record {
              id = n;
              event = e;
              prev_hash = prev;
              row_hash = compute_row_hash mac key prev e;
            }
              ∷ [])
          es
  ]

  -- The transaction that writeDirect and Flush share: the new table, and whether no error came.
  unfoldable pub write_rows : Str → Transaction → List Row → List AuditEvent → List Row × Bool
  unfolding insert_all is_nil last_hash
  write_rows key tx rows es =
      if tx.begins
      then if tx.prepares
        then if tx.commits
          then (
            insert_all key tx (if not (is_nil key) && tx.reads then last_hash [] rows else []) rows
                es,
            true,
          )
          else (rows, false)
        else (rows, false)
      else (rows, false)

  unfoldable pub write_direct :
      Transaction → List AuditEvent → BufferedLogger → BufferedLogger × Bool
  unfolding write_rows
  write_direct tx es bl =
      let (rows, ok) = write_rows bl.hmac_key tx bl.rows es in (record bl { rows = rows }, ok)

  flush_events : Transaction → List AuditEvent → BufferedLogger → BufferedLogger × Bool
  unfolding write_direct
  flush_events tx [] bl = (bl, true)
  flush_events tx (e ∷ es) bl = write_direct tx (e ∷ es) (record bl { buffer = [] })

  -- The buffer is emptied before the transaction begins.
  unfoldable pub flush : Transaction → BufferedLogger → BufferedLogger × Bool
  unfolding flush_events
  flush tx bl = flush_events tx bl.buffer bl

  unfoldable pub log : Transaction → AuditEvent → BufferedLogger → BufferedLogger × Bool
  log tx e bl =
      let bl' = record bl { buffer = bl.buffer ++ e ∷ [] } in
      if member e.action security_actions
      then write_direct tx (e ∷ []) bl
      else if leb bl'.max_buffer (length bl'.buffer)
      then flush tx bl'
      else (bl', true)

pub record Verification : Type 0 where
  pub total : ℕ
  pub skipped : ℕ
  pub checked : ℕ
  pub valid : Bool
  pub first_broken : ℕ

-- The variables of the loop of VerifyAuditChain.
pub record Scan : Type 0 where
  pub counts : Verification
  pub open counts use *
  pub prev_seen : Str
  pub started : Bool

module _ (mac : Str → Str → Str) where
  -- A row that carries a hash, checked against the hash `prev`.
  check_row : Str → Str → Row → Scan → Scan
  unfolding str_eq
  check_row key prev r s =
      let ok = str_eq (verify_compute_hash mac key prev r.event) r.row_hash in
      record {
        counts = record {
          total = s.total + 1;
          skipped = s.skipped;
          checked = s.checked + 1;
          valid = if ok then s.valid else false;
          first_broken =
              if ok then s.first_broken else if s.first_broken == 0 then r.id else s.first_broken;
        };
        prev_seen = r.row_hash;
        started = true;
      }

  scan_row : Str → Row → Scan → Scan
  unfolding check_row is_nil
  scan_row key r s =
      if is_nil r.row_hash
      then record s { counts = record s.counts { total = s.total + 1; skipped = s.skipped + 1 } }
      else check_row key (if s.started then s.prev_seen else r.prev_hash) r s

  unfoldable pub scan_rows : Str → List Row → Scan → Scan
  unfolding scan_row
  scan_rows key [] s = s
  scan_rows key (r ∷ rs) s = scan_rows key rs (scan_row key r s)

  -- The part of VerifyAuditChain behind the reading of key and table.
  unfoldable pub verify_audit_chain : Str → List Row → Verification
  unfolding scan_rows
  verify_audit_chain key rows =
      (scan_rows key rows (record {
        counts = record { total = 0; skipped = 0; checked = 0; valid = true; first_broken = 0 };
        prev_seen = [];
        started = false;
      })).counts
