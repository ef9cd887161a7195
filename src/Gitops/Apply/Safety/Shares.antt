-- ===== src/Gitops/Apply/Safety/Shares.antt =====
-- The share operations keep the trace safe.
use d_plane_os.Prelude.{
  refl, Str, str, str_eq, Bool, true, false, Option, some, none, ◌∷◌, Bool-cases, inl, inr,
  if◌then◌else◌,
}
use d_plane_os.Gitops.State.{DesiredShare}
use d_plane_os.Gitops.System.{
  System, World, Reply, smbstatus, upsert_share, delete_share_row, query_shares, write_conf,
}
use d_plane_os.Gitops.Live.{active_in_reply, has_active_smb_connections}
use d_plane_os.Gitops.Apply.Outcome.{no_spec, database_failed, check, ◌>>◌}
use d_plane_os.Gitops.Apply.Shares.{
  write_file_atomic, written, reload_samba, stored, store_and_reload, create_share, delete_rows,
  drop_and_reload, delete_share,
}
use d_plane_os.Gitops.Apply.Safety.{
  IsSafeTrace, KeepsSafe, KeepsSafe-err, KeepsSafe-bind, KeepsSafe-call, KeepsSafe-check,
}

write_file_atomic-safe :
    (sys : System) (text : Str) (w : World)
    → IsSafeTrace sys w.trace
    → IsSafeTrace sys (write_file_atomic sys text w).1.trace
unfolding write_file_atomic
write_file_atomic-safe sys text w h =
    elim (Bool-cases (sys.answer w.trace (write_conf sys.smb_conf_path text)).failed) [
      | inl e ↦ rw (e, if◌then◌else◌) (tt, h)
      | inr e ↦ rw (e, if◌then◌else◌) (tt, h)
    ]

written-safe :
    (sys : System) (r : Bool × World)
    → IsSafeTrace sys r.1.trace
    → IsSafeTrace sys (written sys r).trace
unfolding written
written-safe sys (true, w) h = (tt, h)
written-safe sys (false, w) h = h

reload_samba-safe :
    (sys : System) (w : World)
    → IsSafeTrace sys w.trace
    → IsSafeTrace sys (reload_samba sys w).trace
unfolding reload_samba
reload_samba-safe sys w h = elim (Bool-cases (str_eq sys.smb_conf_path (str ""))) [
  | inl e ↦ rw (e, if◌then◌else◌) h
  | inr e ↦
      rw (e, if◌then◌else◌)
        (elim (Bool-cases (sys.answer w.trace query_shares).failed) [
          | inl f ↦ rw (f, if◌then◌else◌) (tt, h)
          | inr f ↦
              rw (f, if◌then◌else◌) (written-safe sys _ (write_file_atomic-safe sys _ _ (tt, h)))
        ])
]

store_and_reload-KeepsSafe :
    (sys : System) (name : Str) (ds : DesiredShare) → KeepsSafe sys (store_and_reload sys name ds)
unfolding store_and_reload
store_and_reload-KeepsSafe sys name ds = record {
  at = λ w h. reload_samba-safe sys (stored sys name ds w) h;
}

drop_and_reload-KeepsSafe : (sys : System) (name : Str) → KeepsSafe sys (drop_and_reload sys name)
unfolding drop_and_reload
drop_and_reload-KeepsSafe sys name = record {
  at = λ w h. reload_samba-safe sys (record w { shares = delete_rows name w.shares }) h;
}

pub create_share-KeepsSafe :
    (sys : System) (name : Str) (ds : Option DesiredShare)
    → KeepsSafe sys (create_share sys name ds)
unfolding create_share
create_share-KeepsSafe sys name none = KeepsSafe-err (no_spec name)
create_share-KeepsSafe sys name (some ds) =
    KeepsSafe-bind _ _ (KeepsSafe-call (upsert_share name ds) (λ t. tt)) (λ r.
      KeepsSafe-bind _ (λ _. store_and_reload sys name ds)
        (KeepsSafe-check (database_failed name) r) (λ _. store_and_reload-KeepsSafe sys name ds))

-- The rest of the operation, once its command is answered.
after_delete-KeepsSafe :
    (sys : System) (name : Str) (r : Reply)
    → KeepsSafe sys (check (database_failed name) r >> drop_and_reload sys name)
after_delete-KeepsSafe sys name r =
    KeepsSafe-bind _ (λ _. drop_and_reload sys name) (KeepsSafe-check (database_failed name) r)
      (λ _. drop_and_reload-KeepsSafe sys name)

pub delete_share-KeepsSafe : (sys : System) (name : Str) → KeepsSafe sys (delete_share sys name)
unfolding delete_share has_active_smb_connections
delete_share-KeepsSafe sys name = record {
  at = λ w h. elim (Bool-cases (active_in_reply name (sys.answer w.trace smbstatus))) [
    | inl e ↦ rw (e, if◌then◌else◌) (tt, h)
    | inr e ↦
        rw (e, if◌then◌else◌)
          ((after_delete-KeepsSafe sys name
              (sys.answer (smbstatus ∷ w.trace) (delete_share_row name))).at
            (record w { trace = delete_share_row name ∷ smbstatus ∷ w.trace })
            ((w.trace, refl, e), (tt, h)))
  ];
}
