-- ===== src/Gitops/Apply/Shares.antt =====
-- The share operations of daemon/internal/gitops/apply.go, on the table smb_shares.
use d_plane_os.Prelude.{
  Str, str, str_eq, Bool, true, false, not, Option, some, none, List, [], ◌∷◌, ◌++◌, if◌then◌else◌,
}
use d_plane_os.Gitops.State.{DesiredShare, LiveShare}
use d_plane_os.Gitops.System.{
  System, World, call, smb_reload, upsert_share, delete_share_row, query_shares, write_conf,
}
use d_plane_os.Gitops.Live.{has_active_smb_connections}
use d_plane_os.Gitops.Apply.Outcome.{
  no_spec, database_failed, share_in_use, ok, Action, ◌>>=◌, ◌>>◌, fail, ask, check,
}

-- The update that ON CONFLICT(name) makes.
unfoldable pub updated_row : DesiredShare → LiveShare → LiveShare
updated_row ds row = record row {
  path = ds.path;
  read_only = ds.read_only;
  valid_users = ds.valid_users;
  comment = ds.comment;
  guest_ok = ds.guest_ok;
}

unfoldable pub inserted_row : System → Str → DesiredShare → List LiveShare → LiveShare
inserted_row sys name ds rows = record {
  id = sys.new_id rows;
  name = name;
  path = ds.path;
  read_only = ds.read_only;
  valid_users = ds.valid_users;
  comment = ds.comment;
  guest_ok = ds.guest_ok;
  enabled = true;
}

-- INSERT … ON CONFLICT(name) DO UPDATE, on the rows in their order; `fresh` is the row to insert.
unfoldable pub upsert_row : Str → DesiredShare → LiveShare → List LiveShare → List LiveShare
unfolding updated_row str_eq
upsert_row name ds fresh [] = fresh ∷ []
upsert_row name ds fresh (row ∷ rows) =
    if str_eq row.name name then updated_row ds row ∷ rows else row ∷ upsert_row name ds fresh rows

-- DELETE FROM smb_shares WHERE name = ?
unfoldable pub delete_rows : Str → List LiveShare → List LiveShare
unfolding str_eq
delete_rows name [] = []
delete_rows name (row ∷ rows) =
    let rest = delete_rows name rows in if str_eq row.name name then rest else row ∷ rest

text_when : Bool → Str → Str
text_when true t = t
text_when false t = []

unfoldable pub conf_section : LiveShare → Str
unfolding text_when str_eq
conf_section s =
    str "["
    ++ (s.name
        ++ (str "]\n   path = "
            ++ (s.path
                ++ (str "\n"
                    ++ (text_when s.read_only (str "   read only = yes\n")
                        ++ (text_when (not (str_eq s.valid_users (str "")))
                              (str "   valid users = " ++ (s.valid_users ++ str "\n"))
                            ++ (text_when (not (str_eq s.comment (str "")))
                                  (str "   comment = " ++ (s.comment ++ str "\n"))
                                ++ (text_when s.guest_ok (str "   guest ok = yes\n")
                                    ++ str "\n"))))))))

-- WHERE enabled=1
unfoldable pub conf_sections : List LiveShare → Str
unfolding conf_section
conf_sections [] = []
conf_sections (s ∷ ss) =
    let rest = conf_sections ss in if s.enabled then conf_section s ++ rest else rest

unfoldable pub smb_conf_text : List LiveShare → Str
unfolding conf_sections
smb_conf_text rows =
    str "[global]\n   workgroup = WORKGROUP\n   server string = D-PlaneOS NAS\n\n"
    ++ conf_sections rows

-- writeFileAtomic: a failed write or rename leaves the file as it was.
unfoldable pub write_file_atomic : System → Str → World → Bool × World
unfolding call
write_file_atomic sys text w =
    let (r, w') = call sys (write_conf sys.smb_conf_path text) w in
    if r.failed then (false, w') else (true, record w' { smb_conf = some text })

unfoldable pub written : System → Bool × World → World
unfolding call
written sys (true, w) = (call sys smb_reload w).1
written sys (false, w) = w

-- Errors of reloadSamba are logged and not returned.
unfoldable pub reload_samba : System → World → World
unfolding write_file_atomic written call str_eq
reload_samba sys w =
    if str_eq sys.smb_conf_path (str "")
    then w
    else let (r, w') = call sys query_shares w in
      if r.failed then w' else written sys (write_file_atomic sys (smb_conf_text w'.shares) w')

unfoldable pub stored : System → Str → DesiredShare → World → World
unfolding upsert_row inserted_row
stored sys name ds w = record w {
  shares = upsert_row name ds (inserted_row sys name ds w.shares) w.shares;
}

unfoldable pub store_and_reload : System → Str → DesiredShare → Action (Unit {0})
unfolding stored
store_and_reload sys name ds w = (ok tt, reload_samba sys (stored sys name ds w))

unfoldable pub create_share : System → Str → Option DesiredShare → Action (Unit {0})
unfolding store_and_reload
create_share sys name none = fail (no_spec name)
create_share sys name (some ds) = do
  r ← ask (call sys (upsert_share name ds))
  check (database_failed name) r
  store_and_reload sys name ds

unfoldable pub modify_share : System → Str → Option DesiredShare → Action (Unit {0})
unfolding create_share
modify_share sys name ds = create_share sys name ds

unfoldable pub drop_and_reload : System → Str → Action (Unit {0})
unfolding delete_rows
drop_and_reload sys name w =
    (ok tt, reload_samba sys (record w { shares = delete_rows name w.shares }))

unfoldable pub delete_share : System → Str → Action (Unit {0})
unfolding drop_and_reload
delete_share sys name = do
  active ← ask (has_active_smb_connections sys name)
  if active then fail (share_in_use name) else do
    r ← ask (call sys (delete_share_row name))
    check (database_failed name) r
    drop_and_reload sys name
