-- ===== src/Audit/Verified.antt =====
-- The verification accepts a chain, and every part of one.
use d_plane_os.Prelude.{
  ◌+◌, ◌≡◌, refl, ◌∙◌, Str, str_eq, str_eq_self, Bool, true, false, List, [], ◌∷◌, ◌++◌, length,
  arith, if◌then◌else◌, ℤ,
}
use d_plane_os.Audit.{
  Row, message, is_nil, verify_compute_hash, new_buffered_logger, Scan, scan_row, scan_rows,
  verify_audit_chain,
}
use d_plane_os.Audit.Intact.{IsChain, Call, CanRead, run, run-IsSound}

-- A MAC is never the empty text.
abbrev pub HasOutput : (Str → Str → Str) → Type 0
HasOutput mac = (key text : Str) → is_nil (mac key text) ≡ false

continued_from :
    {seen prev own : Str} (b : Bool)
    → (b ≡ true → seen ≡ prev)
    → own ≡ prev
    → (if b then seen else own) ≡ prev
continued_from true h p = h refl
continued_from false h p = p

module _ (mac : Str → Str → Str) (key : Str) (output : HasOutput mac) where
  -- What the loop has found after the rows of a chain.
  record Accepts (rows : List Row) (s t : Scan) : Type 0 where
    still_valid : t.valid ≡ s.valid
    all_checked : t.checked ≡ s.checked + length rows
    none_skipped : t.skipped ≡ s.skipped
    unbroken : t.first_broken ≡ s.first_broken

  scan_row-Accepts :
      (prev : Str) (r : Row) (s : Scan)
      → r.prev_hash ≡ prev
      → r.row_hash ≡ mac key (message prev r.event)
      → (s.started ≡ true → s.prev_seen ≡ prev)
      → let t = scan_row mac key r s in Accepts (r ∷ []) s t × (t.prev_seen ≡ r.row_hash)
  unfolding scan_row
  scan_row-Accepts prev r s p q h =
      let used : (if s.started then s.prev_seen else r.prev_hash) ≡ prev =
        continued_from s.started h p in
      let there : is_nil r.row_hash ≡ false = rw q (output key (message prev r.event)) in
      let same : str_eq (verify_compute_hash mac key prev r.event) r.row_hash ≡ true =
        unfold verify_compute_hash in rw q (str_eq_self (mac key (message prev r.event))) in
      rw (there, used, same, if◌then◌else◌)
        (
          record { still_valid = refl; all_checked = refl; none_skipped = refl; unbroken = refl },
          refl,
        )

  scan_rows-Accepts :
      (prev : Str) (rows : List Row) (s : Scan)
      → IsChain mac key prev rows
      → (s.started ≡ true → s.prev_seen ≡ prev)
      → Accepts rows s (scan_rows mac key rows s)
  unfolding scan_rows
  scan_rows-Accepts prev [] s c h = ground arith
  scan_rows-Accepts prev (r ∷ rs) s c h =
      let (a, seen) = scan_row-Accepts prev r s c.0 c.1 h in
      let rest = scan_rows-Accepts r.row_hash rs (scan_row mac key r s) c.2 (λ _. seen) in
      record {
        still_valid = rest.still_valid ∙ a.still_valid;
        all_checked = omega (arith, rest.all_checked, a.all_checked);
        none_skipped = rest.none_skipped ∙ a.none_skipped;
        unbroken = rest.unbroken ∙ a.unbroken;
      }

  -- Rows that form a chain from any hash verify: a table whose oldest rows were removed too.
  pub verify-IsChain :
      (prev : Str) (rows : List Row)
      → IsChain mac key prev rows
      → let v = verify_audit_chain mac key rows in
        (v.valid ≡ true) × (v.checked ≡ length rows) × (v.skipped ≡ 0) × (v.first_broken ≡ 0)
  unfolding verify_audit_chain
  verify-IsChain prev rows c =
      let start : Scan = record {
        counts = record { total = 0; skipped = 0; checked = 0; valid = true; first_broken = 0 };
        prev_seen = [];
        started = false;
      } in
      let a = scan_rows-Accepts prev rows start c (λ h. cc) in
      (a.still_valid, omega (arith, a.all_checked), a.none_skipped, a.unbroken)

-- A logger with a key that starts on an empty table, whatever its buffer size and whatever calls
-- are made, leaves a table of which the verification finds every row intact and skips none; a
-- transaction may fail to begin, to prepare, to insert any of its rows or to commit, as long as it
-- can read the last hash.
pub run-verified :
    (mac : Str → Str → Str) (key : Str) (max : ℤ) (cs : List Call)
    → HasOutput mac
    → is_nil key ≡ false
    → CanRead cs
    → let bl = run mac cs (new_buffered_logger [] max key) in
      let v = verify_audit_chain mac key bl.rows in
      (v.valid ≡ true) × (v.checked ≡ length bl.rows) × (v.skipped ≡ 0) × (v.first_broken ≡ 0)
unfolding new_buffered_logger
run-verified mac key max cs output k r =
    let h =
      run-IsSound mac key k cs (new_buffered_logger [] max key) r
        (record { same_key = refl; chained = tt }) in
    verify-IsChain mac key output [] _ h.chained

IsChain-dropped :
    (mac : Str → Str → Str) (key prev : Str) (old rows : List Row)
    → IsChain mac key prev (old ++ rows)
    → (h : Str) × IsChain mac key h rows
IsChain-dropped mac key prev [] rows c = (prev, c)
IsChain-dropped mac key prev (r ∷ old) rows c = IsChain-dropped mac key r.row_hash old rows c.2

-- The verification does not see that the oldest rows of a chain are gone.
pub verify-dropped :
    (mac : Str → Str → Str) (key : Str) (old rows : List Row)
    → HasOutput mac
    → IsChain mac key [] (old ++ rows)
    → (verify_audit_chain mac key rows).valid ≡ true
verify-dropped mac key old rows output c =
    let (h, c') = IsChain-dropped mac key [] old rows c in
    (verify-IsChain mac key output h rows c').0
