-- ===== src/Gitops/Apply/Safety/Datasets.antt =====
-- The dataset operations keep the trace safe.
use d_plane_os.Prelude.{
  refl, ltb, Str, Option, List, [], ◌∷◌, arith, Bool-cases, Option-cases, inl, inr, if◌then◌else◌,
}
use d_plane_os.Gitops.State.{DesiredDataset}
use d_plane_os.Gitops.System.{System, zfs_get_used, zfs_list_name, zfs_create, zfs_set}
use d_plane_os.Gitops.Live.{used_of_reply, dataset_used_bytes}
use d_plane_os.Gitops.Apply.Outcome.{command_failed}
use d_plane_os.Gitops.Apply.Zfs.{
  create_dataset, modify_dataset, modify_dataset_change, set_property, parse_change_string,
  delete_dataset, dataset_prop_name, exists_already,
}
use d_plane_os.Gitops.Apply.Safety.{
  KeepsSafe, world-check, KeepsSafe-if, KeepsSafe-pure, KeepsSafe-bind, KeepsSafe-call,
  KeepsSafe-command,
}

pub delete_dataset-KeepsSafe : (sys : System) (name : Str) → KeepsSafe sys (delete_dataset sys name)
unfolding delete_dataset dataset_used_bytes
delete_dataset-KeepsSafe sys name = record {
  at = λ w h.
      let used = used_of_reply (sys.answer w.trace (zfs_get_used name)) in
      elim (Bool-cases (ltb 0 used)) [
        | inl e ↦ rw (e, if◌then◌else◌) (tt, h)
        | inr e ↦ rw (e, if◌then◌else◌) (rw world-check ((w.trace, refl, ground arith), (tt, h)))
      ];
}

pub create_dataset-KeepsSafe :
    (sys : System) (name : Str) (dd : Option DesiredDataset)
    → KeepsSafe sys (create_dataset sys name dd)
unfolding create_dataset
create_dataset-KeepsSafe sys name dd =
    KeepsSafe-bind _ _ (KeepsSafe-call (zfs_list_name name) (λ t. tt)) (λ r.
      KeepsSafe-if (exists_already name r) _ _ (KeepsSafe-pure tt)
        (KeepsSafe-command (zfs_create name) (command_failed name) (λ t. tt)))

set_property-KeepsSafe :
    (sys : System) (name prop value : Str) → KeepsSafe sys (set_property sys name prop value)
unfolding set_property
set_property-KeepsSafe sys name prop value =
    KeepsSafe-if _ _ _ (KeepsSafe-pure tt)
      (KeepsSafe-command (zfs_set prop value name) (command_failed name) (λ t. tt))

modify_dataset_change-KeepsSafe :
    (sys : System) (name change : Str) → KeepsSafe sys (modify_dataset_change sys name change)
unfolding modify_dataset_change
modify_dataset_change-KeepsSafe sys name change = elim (Option-cases (parse_change_string change)) [
  | inl e ↦ rw (e, modify_dataset_change) (KeepsSafe-pure tt)
  | inr (pv, e) ↦
      rw (e, modify_dataset_change) (set_property-KeepsSafe sys name (dataset_prop_name pv.0) pv.1)
]

pub modify_dataset-KeepsSafe :
    (sys : System) (name : Str) (changes : List Str)
    → KeepsSafe sys (modify_dataset sys name changes)
unfolding modify_dataset
modify_dataset-KeepsSafe sys name [] = KeepsSafe-pure tt
modify_dataset-KeepsSafe sys name (c ∷ cs) =
    KeepsSafe-bind _ _ (modify_dataset_change-KeepsSafe sys name c)
      (λ _. modify_dataset-KeepsSafe sys name cs)
