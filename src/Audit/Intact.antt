-- ===== src/Audit/Intact.antt =====
-- What the logger writes is accepted by the verification.

use d_plane_os.Prelude.{
  ◌≡◌, refl, leb, Str, member, Bool, true, false, List, [], ◌∷◌, ◌++◌, length, Option-cases, inl,
  inr, if◌then◌else◌, pick,
}
use d_plane_os.Audit.{
  AuditEvent, Row, message, is_nil, compute_row_hash, BufferedLogger, Transaction, last_hash,
  insert_all, write_rows, write_direct, flush_events, flush, log, security_actions,
}

module _ (mac : Str → Str → Str) (key : Str) where
  -- Each row continues the hash before it: the chain, by itself.
  abbrev pub IsChain : Str → List Row → Type 0
  IsChain prev [] = Unit
  IsChain prev (r ∷ rs) =
      (r.prev_hash ≡ prev) × (r.row_hash ≡ mac key (message prev r.event)) × IsChain r.row_hash rs

  IsChain-append :
      (prev : Str) (rows more : List Row)
      → IsChain prev rows
      → IsChain (last_hash prev rows) more
      → IsChain prev (rows ++ more)
  unfolding last_hash
  IsChain-append prev [] more h k = k
  IsChain-append prev (r ∷ rs) more h k = (h.0, h.1, IsChain-append r.row_hash rs more h.2 k)

  last_hash-append :
      (prev : Str) (rows : List Row) (r : Row) → last_hash prev (rows ++ r ∷ []) ≡ r.row_hash
  unfolding last_hash
  last_hash-append prev [] r = refl
  last_hash-append prev (x ∷ rows) r = last_hash-append x.row_hash rows r

  insert_all-IsChain :
      (tx : Transaction) (rows : List Row) (es : List AuditEvent)
      → is_nil key ≡ false
      → IsChain [] rows
      → IsChain [] (insert_all mac key tx (last_hash [] rows) rows es)
  unfolding insert_all
  insert_all-IsChain tx rows [] k h = h
  insert_all-IsChain tx rows (e ∷ es) k h = elim (Option-cases (tx.inserts rows e)) [
    | inl q ↦ rw (q, insert_all) (insert_all-IsChain tx rows es k h)
    | inr (n, q) ↦
        let prev = last_hash [] rows in
        let r : Row = record {
          id = n;
          event = e;
          prev_hash = prev;
          row_hash = compute_row_hash mac key prev e;
        } in
        let kept =
          IsChain-append [] rows (r ∷ []) h
            (refl, unfold compute_row_hash in rw (k, if◌then◌else◌), tt) in
        rw (q, insert_all)
          (rw (last_hash-append [] rows r) at (insert_all-IsChain tx (rows ++ r ∷ []) es k kept))
  ]

  -- One transaction, whatever fails in it but the reading of the last hash.
  write_rows-IsChain :
      (tx : Transaction) (rows : List Row) (es : List AuditEvent)
      → is_nil key ≡ false
      → tx.reads ≡ true
      → IsChain [] rows
      → IsChain [] (write_rows mac key tx rows es).0
  unfolding write_rows
  write_rows-IsChain tx rows es k r h =
      let P = λ (p : List Row × Bool). IsChain [] p.0 in
      pick P tx.begins _ _
        (pick P tx.prepares _ _
          (pick P tx.commits _ _ (rw (k, r) (insert_all-IsChain tx rows es k h)) h) h)
        h

-- A call of the logger, with the way its transaction goes if it makes one.
pub data Call : Type 0 where
  logged : Transaction → AuditEvent → Call
  flushed : Transaction → Call

abbrev pub transaction : Call → Transaction
transaction (logged tx e) = tx
transaction (flushed tx) = tx

abbrev pub run_call : (Str → Str → Str) → Call → BufferedLogger → BufferedLogger
run_call mac (logged tx e) bl = (log mac tx e bl).0
run_call mac (flushed tx) bl = (flush mac tx bl).0

unfoldable pub run : (Str → Str → Str) → List Call → BufferedLogger → BufferedLogger
run mac [] bl = bl
run mac (c ∷ cs) bl = run mac cs (run_call mac c bl)

-- Every transaction can read the last hash.
abbrev pub CanRead : List Call → Type 0
CanRead [] = Unit
CanRead (c ∷ cs) = ((transaction c).reads ≡ true) × CanRead cs

module _ (mac : Str → Str → Str) where
  -- A logger with a key, over a chained table.
  pub record IsSound (key : Str) (bl : BufferedLogger) : Type 0 where
    pub same_key : bl.hmac_key ≡ key
    pub chained : IsChain mac key [] bl.rows

  module _ (key : Str) (k : is_nil key ≡ false) where
    write_direct-IsSound :
        (tx : Transaction) (es : List AuditEvent) (bl : BufferedLogger)
        → tx.reads ≡ true
        → IsSound key bl
        → IsSound key (write_direct mac tx es bl).0
    unfolding write_direct
    write_direct-IsSound tx es bl r h = record {
      same_key = h.same_key;
      chained = rw h.same_key (write_rows-IsChain mac key tx bl.rows es k r h.chained);
    }

    flush_events-IsSound :
        (tx : Transaction) (es : List AuditEvent) (bl : BufferedLogger)
        → tx.reads ≡ true
        → IsSound key bl
        → IsSound key (flush_events mac tx es bl).0
    unfolding flush_events
    flush_events-IsSound tx [] bl r h = h
    flush_events-IsSound tx (e ∷ es) bl r h =
        write_direct-IsSound tx (e ∷ es) _ r (record { same_key = h.same_key; chained = h.chained })

    run_call-IsSound :
        (c : Call) (bl : BufferedLogger)
        → (transaction c).reads ≡ true
        → IsSound key bl
        → IsSound key (run_call mac c bl)
    unfolding log flush
    run_call-IsSound (flushed tx) bl r h = flush_events-IsSound tx bl.buffer bl r h
    run_call-IsSound (logged tx e) bl r h =
        let P = λ (p : BufferedLogger × Bool). IsSound key p.0 in
        let h' : IsSound key (record bl { buffer = bl.buffer ++ e ∷ [] }) = record {
          same_key = h.same_key;
          chained = h.chained;
        } in
        pick P (member e.action security_actions) _ _ (write_direct-IsSound tx (e ∷ []) bl r h) (
          pick P (leb bl.max_buffer (length (bl.buffer ++ e ∷ []))) _ _
            (flush_events-IsSound tx (bl.buffer ++ e ∷ [])
              (record bl { buffer = bl.buffer ++ e ∷ [] }) r h')
            h')

    pub run-IsSound :
        (cs : List Call) (bl : BufferedLogger)
        → CanRead cs
        → IsSound key bl
        → IsSound key (run mac cs bl)
    unfolding run
    run-IsSound [] bl r h = h
    run-IsSound (c ∷ cs) bl r h =
        run-IsSound cs (run_call mac c bl) r.1 (run_call-IsSound c bl r.0 h)
