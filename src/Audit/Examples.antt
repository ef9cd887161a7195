-- ===== src/Audit/Examples.antt =====
-- A run of the logger with a MAC that any reader can compute: the key, a colon and the text.
use d_plane_os.Prelude.{◌≡◌, refl, Str, true, false, some, List, [], ◌∷◌, ◌++◌, length, pos}
use d_plane_os.Audit.{
  AuditEvent, Row, is_nil, message, compute_row_hash, BufferedLogger, Transaction,
  new_buffered_logger, flush, verify_audit_chain,
}
use d_plane_os.Audit.Intact.{Call, logged, flushed, run}
use d_plane_os.Audit.Verified.{HasOutput, run-verified, verify-dropped}
use d_plane_os.Audit.Forgery.{compute_row_hash-ambiguous}

abbrev plain_mac : Str → Str → Str
plain_mac key text = b':' ∷ (key ++ text)

plain_mac-HasOutput : HasOutput plain_mac
unfolding is_nil
plain_mac-HasOutput key text = refl

abbrev good : Transaction
good = record {
  begins = true;
  reads = true;
  prepares = true;
  inserts = λ rows e. some (length rows);
  commits = true;
}

abbrev refused : Transaction
refused = record good { begins = false }

abbrev removal : AuditEvent
removal = record {
  timestamp = pos 7;
  user = b'u' ∷ [];
  action = b'a' ∷ [];
  resource = [];
  details = [];
  ip_address = [];
  success = true;
}

abbrev calls : List Call
calls = logged good removal ∷ logged refused removal ∷ flushed good ∷ []

abbrev key : Str
key = b'k' ∷ []

key_is_there : is_nil key ≡ false
unfolding is_nil
key_is_there = refl

run-verified_example :
    let bl = run plain_mac calls (new_buffered_logger [] (pos 2) key) in
    let v = verify_audit_chain plain_mac key bl.rows in
    (v.valid ≡ true) × (v.checked ≡ length bl.rows) × (v.skipped ≡ 0) × (v.first_broken ≡ 0)
run-verified_example =
    run-verified plain_mac key (pos 2) calls plain_mac-HasOutput key_is_there
      (refl, (refl, (refl, tt)))

compute_row_hash-ambiguous_example :
    compute_row_hash plain_mac key []
      (record removal { user = (b'u' ∷ []) ++ (b'|' ∷ []); action = b'a' ∷ [] })
    ≡ compute_row_hash plain_mac key []
        (record removal { user = b'u' ∷ []; action = [] ++ (b'|' ∷ b'a' ∷ []) })
compute_row_hash-ambiguous_example =
    compute_row_hash-ambiguous plain_mac key [] (b'u' ∷ []) [] (b'a' ∷ []) removal

abbrev waiting : BufferedLogger
waiting = record { buffer = removal ∷ []; max_buffer = 2; hmac_key = key; rows = [] }

waiting_fails : (flush plain_mac refused waiting).1 ≡ false
unfolding flush
waiting_fails = refl

abbrev first_row : Row
first_row = record {
  id = 1;
  event = removal;
  prev_hash = [];
  row_hash = plain_mac key (message [] removal);
}

abbrev second_row : Row
second_row = record {
  id = 2;
  event = removal;
  prev_hash = first_row.row_hash;
  row_hash = plain_mac key (message first_row.row_hash removal);
}

verify-dropped_example : (verify_audit_chain plain_mac key (second_row ∷ [])).valid ≡ true
verify-dropped_example =
    verify-dropped plain_mac key (first_row ∷ []) (second_row ∷ []) plain_mac-HasOutput
      (refl, refl, (refl, refl, tt))
