-- ===== src/Gitops/Apply/Convergence.antt =====
-- A share that was created or modified matches its declaration afterwards.
use mathlib.Core.Path.{subst}
use d_plane_os.Prelude.{
  ◌≡◌, ◌⊎◌, refl, Str, str_eq, str_eq_self, str_eq_iff, In, Distinct, map, Bool, true, false, some,
  none, List, [], ◌∷◌, arith, ap, ◌∙◌, Bool-cases, Option, inl, inr, if◌then◌else◌,
}
use d_plane_os.Gitops.State.{
  DesiredShare, LiveShare, DiffItem, DiffAction, create, modify, ResourceKind, share,
}
use d_plane_os.Gitops.System.{System, World, call, upsert_share, query_shares}
use d_plane_os.Gitops.Diff.{diff_share, bool_eq}
use d_plane_os.Gitops.Plan.{map_get}
use d_plane_os.Gitops.Apply.Outcome.{Outcome, Action, ◌>>◌, ok, err, database_failed}
use d_plane_os.Gitops.Apply.Safety.{world-check}
use d_plane_os.Gitops.Apply.Shares.{
  smb_conf_text, updated_row, inserted_row, upsert_row, write_file_atomic, written, reload_samba,
  stored, create_share, modify_share,
}
use d_plane_os.Gitops.Apply.{
  Applied, created, modified, create_by_kind, modify_by_kind, execute_create, execute_modify,
  apply_action, apply_item,
}

bool_eq_self : (b : Bool) → bool_eq b b ≡ true
unfolding bool_eq
bool_eq_self true = refl
bool_eq_self false = refl

-- A row with the declared values has no difference.
diff-updated_row :
    (sys : System) (ds : DesiredShare) (row : LiveShare)
    → diff_share sys ds (updated_row ds row) ≡ []
unfolding diff_share updated_row
diff-updated_row sys ds row = simp (str_eq_self, bool_eq_self)

diff-inserted_row :
    (sys : System) (name : Str) (ds : DesiredShare) (rows : List LiveShare)
    → diff_share sys ds (inserted_row sys name ds rows) ≡ []
unfolding diff_share inserted_row
diff-inserted_row sys name ds rows = simp (str_eq_self, bool_eq_self)

abbrev name_of : LiveShare → Str
name_of s = s.name

-- No two rows have one name, as the UNIQUE constraint of the table demands.
abbrev pub HasUniqueNames : List LiveShare → Type 0
HasUniqueNames rows = Distinct (map name_of rows)

map_get-absent :
    (n : Str) (rows : List LiveShare) → ¬ In n (map name_of rows) → map_get name_of n rows ≡ none
unfolding map_get
map_get-absent n [] h = refl
map_get-absent n (r ∷ rows) h =
    rw (map_get-absent n rows (λ k. h (inr k))) (elim (Bool-cases (str_eq r.name n)) [
      | inl e ↦ absurd (h (inl ((str_eq_iff r.name n).0 e)))
      | inr e ↦ rw e
    ])

-- The row under the name is there and matches the declaration.
abbrev pub Matches : System → Str → DesiredShare → List LiveShare → Type 0
Matches sys name ds rows =
    (row : LiveShare) × (map_get (λ (s : LiveShare). s.name) name rows ≡ some row)
    × (diff_share sys ds row ≡ [])

upsert_row-Matches :
    (sys : System) (name : Str) (ds : DesiredShare) (all rows : List LiveShare)
    → HasUniqueNames rows
    → Matches sys name ds (upsert_row name ds (inserted_row sys name ds all) rows)
unfolding upsert_row map_get
upsert_row-Matches sys name ds all [] h = (
  inserted_row sys name ds all,
  unfold inserted_row in rw str_eq_self,
  diff-inserted_row sys name ds all,
)
upsert_row-Matches sys name ds all (row ∷ rows) h = elim (Bool-cases (str_eq row.name name)) [
  | inl e ↦
      let q = (str_eq_iff row.name name).0 e in
      let gone = map_get-absent name rows (subst (λ n. ¬ In n (map name_of rows)) q h.0) in
      rw (e, if◌then◌else◌)
        (updated_row ds row, rw gone (unfold updated_row in rw e), diff-updated_row sys ds row)
  | inr e ↦
      let (found, got, same) = upsert_row-Matches sys name ds all rows h.1 in
      rw (e, if◌then◌else◌) (found, rw got, same)
]

shares-write :
    (sys : System) (text : Str) (w : World) → (write_file_atomic sys text w).1.shares ≡ w.shares
unfolding write_file_atomic
shares-write sys text w = ground arith

shares-written : (sys : System) (r : Bool × World) → (written sys r).shares ≡ r.1.shares
unfolding written
shares-written sys (true, w) = refl
shares-written sys (false, w) = refl

pub shares-reload_samba : (sys : System) (w : World) → (reload_samba sys w).shares ≡ w.shares
unfolding reload_samba
shares-reload_samba sys w = ground (
  arith,
  shares-written sys (
      write_file_atomic sys (smb_conf_text w.shares) (record w { trace = query_shares ∷ w.trace })),
)

shares-create_share :
    (sys : System) (name : Str) (ds : DesiredShare) (w : World)
    → (create_share sys name (some ds) w).0 ≡ ok tt
    → (create_share sys name (some ds) w).1.shares
      ≡ upsert_row name ds (inserted_row sys name ds w.shares) w.shares
unfolding create_share call
shares-create_share sys name ds w k =
    let asked = record w { trace = upsert_share name ds ∷ w.trace } in
    elim (Bool-cases (sys.answer w.trace (upsert_share name ds)).failed) [
      | inl e ↦ let bad : err (database_failed name) ≡ ok tt = rw (e, if◌then◌else◌) at k in cc bad
      | inr e ↦
          rw (e, if◌then◌else◌)
            (rw world-check (shares-reload_samba sys (stored sys name ds asked)))
    ]

-- A creation that returns no error, on a table with unique names.
create_share-Matches :
    (sys : System) (name : Str) (ds : DesiredShare) (w : World)
    → HasUniqueNames w.shares
    → (create_share sys name (some ds) w).0 ≡ ok tt
    → Matches sys name ds (create_share sys name (some ds) w).1.shares
create_share-Matches sys name ds w h k =
    rw (shares-create_share sys name ds w k) (upsert_row-Matches sys name ds w.shares w.shares h)

-- The result of a step that is noted as applied comes from the step.
noted-ok :
    (a : Applied) (r : Outcome (Unit {0}) × World) (b : Option Applied)
    → (◌>>◌ (λ w. r) (λ w. (ok (some a), w)) r.1).0 ≡ ok b
    → (r.0 ≡ ok tt) × ((◌>>◌ (λ w. r) (λ w. (ok (some a), w)) r.1).1 ≡ r.1)
noted-ok a (ok u, w) b h = (refl, refl)
noted-ok a (err e, w) b h = cc

-- A step that is the creation of a share.
step-Matches :
    (sys : System) (m : Action (Unit {0})) (a : Applied) (b : Option Applied) (name : Str)
    (ds : DesiredShare) (w : World)
    → m ≡ create_share sys name (some ds)
    → HasUniqueNames w.shares
    → (◌>>◌ m (λ w. (ok (some a), w)) w).0 ≡ ok b
    → Matches sys name ds (◌>>◌ m (λ w. (ok (some a), w)) w).1.shares
step-Matches sys m a b name ds w e h k =
    let (good, same) = noted-ok a (m w) b k in
    rw same (rw e (create_share-Matches sys name ds w h (rw e at good)))

-- After an item of a plan that creates or modifies a share was applied without an error, on a table with
-- unique names, the table has a row of that name that the diff engine finds equal to the item's declaration.
pub apply_item-Matches :
    (sys : System) (it : DiffItem) (ds : DesiredShare) (b : Option Applied) (w : World)
    → it.kind ≡ share
    → (it.action ≡ create) ⊎ (it.action ≡ modify)
    → it.desired_share ≡ some ds
    → HasUniqueNames w.shares
    → (apply_item sys it w).0 ≡ ok b
    → Matches sys it.name ds (apply_item sys it w).1.shares
unfolding apply_item execute_create execute_modify modify_share
apply_item-Matches sys it ds b w kind (inl action) spec h k =
    let step : apply_item sys it ≡ apply_action sys create it =
      ap (λ (a : DiffAction). apply_action sys a it) action in
    let made : execute_create sys it ≡ create_share sys it.name (some ds) =
      ap (λ (x : ResourceKind). create_by_kind sys x it) kind
      ∙ ap (create_share sys it.name) spec in
    rw step (
      step-Matches sys (execute_create sys it) (created it.kind it.name) b it.name ds w made h
        (rw step at k))
apply_item-Matches sys it ds b w kind (inr action) spec h k =
    let step : apply_item sys it ≡ apply_action sys modify it =
      ap (λ (a : DiffAction). apply_action sys a it) action in
    let made : execute_modify sys it ≡ create_share sys it.name (some ds) =
      ap (λ (x : ResourceKind). modify_by_kind sys x it) kind
      ∙ ap (create_share sys it.name) spec in
    rw step (
      step-Matches sys (execute_modify sys it) (modified it.kind it.name) b it.name ds w made h
        (rw step at k))
