-- ===== src/Audit/Forgery.antt =====
-- Two different events with one hash, and events that a failed flush loses.
use mathlib.Core.List.{append_assoc}
use d_plane_os.Prelude.{◌≡◌, refl, Str, false, List, [], ◌∷◌, ◌++◌, arith}
use d_plane_os.Audit.{
  AuditEvent, Row, message, compute_row_hash, BufferedLogger, Transaction, write_rows, flush_events,
  flush,
}

-- The separator is not escaped: a bar in the user's name moves the end of the field. The event of
-- the user "u|v" with the action "a" and that of the user "u" with the action "v|a", alike in all
-- else, have the same row hash, whatever the MAC, the key, the previous hash and u, v and a are.
pub compute_row_hash-ambiguous :
    (mac : Str → Str → Str) (key prev u v a : Str) (e : AuditEvent)
    → compute_row_hash mac key prev (record e { user = u ++ (b'|' ∷ v); action = a })
      ≡ compute_row_hash mac key prev (record e { user = u; action = v ++ (b'|' ∷ a) })
unfolding compute_row_hash message
compute_row_hash-ambiguous mac key prev u v a e = simp append_assoc

write_rows_failed :
    (mac : Str → Str → Str) (key : Str) (tx : Transaction) (rows : List Row) (es : List AuditEvent)
    → (write_rows mac key tx rows es).1 ≡ false
    → (write_rows mac key tx rows es).0 ≡ rows
unfolding write_rows
write_rows_failed mac key tx rows es h = ground arith

flush_events_failed :
    (mac : Str → Str → Str) (tx : Transaction) (es : List AuditEvent) (bl : BufferedLogger)
    → (flush_events mac tx es bl).1 ≡ false
    → ((flush_events mac tx es bl).0.buffer ≡ []) × ((flush_events mac tx es bl).0.rows ≡ bl.rows)
unfolding flush_events
flush_events_failed mac tx [] bl h = cc
flush_events_failed mac tx (e ∷ es) bl h =
    (refl, write_rows_failed mac bl.hmac_key tx bl.rows (e ∷ es) h)

-- A flush that returns an error has emptied the buffer and written nothing: its events are lost.
pub flush_failed :
    (mac : Str → Str → Str) (tx : Transaction) (bl : BufferedLogger)
    → (flush mac tx bl).1 ≡ false
    → ((flush mac tx bl).0.buffer ≡ []) × ((flush mac tx bl).0.rows ≡ bl.rows)
unfolding flush
flush_failed mac tx bl h = flush_events_failed mac tx bl.buffer bl h
