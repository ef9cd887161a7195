-- ===== src/Gitops/Apply/Safety/Destroy.antt =====
-- The destruction of a pool keeps the trace safe.
use mathlib.Core.Path.{subst}
use mathlib.Core.List.{append_assoc}
use d_plane_os.Prelude.{
  ◌≡◌, refl, sym, ap, ◌∙◌, ltb, Str, str_eq, fields, split, All, All-append, All-weaken, List, [],
  ◌∷◌, ◌++◌, arith, Bool-cases, inl, inr, if◌then◌else◌,
}
use d_plane_os.Gitops.System.{
  System, World, Effect, Reply, call, zfs_get_used, zfs_list_used, zpool_destroy,
}
use d_plane_os.Gitops.Live.{used_of_reply, dataset_used_bytes}
use d_plane_os.Gitops.Plan.Contract.Deletions.{Answered-later}
use d_plane_os.Gitops.Apply.Outcome.{
  Action, Outcome, ok, err, command_failed, pool_has_data, check, ask, done, fail, ◌>>=◌, ◌>>◌,
}
use d_plane_os.Gitops.Apply.Zfs.{check_empty, check_all_empty, check_listing, destroy_pool}
use d_plane_os.Gitops.Apply.Safety.{
  child, children, listed, ReadsZero, IsSafeTrace, KeepsSafe, world-check,
}

-- A check of datasets: it only asks, and if it passes, all of them were answered with 0 bytes.
record Checked (sys : System) (w : World) (ds : List Str) (r : Outcome (Unit {0}) × World)
    : Type 0 where
  safe : IsSafeTrace sys w.trace → IsSafeTrace sys r.1.trace
  grown : (since : List Effect) × (r.1.trace ≡ since ++ w.trace)
  empty : (r.0 ≡ ok tt) → All (ReadsZero sys r.1.trace) ds

module _ (sys : System) (name : Str) where
  Checked-pass : (w : World) → Checked sys w [] (ok tt, w)
  Checked-pass w = record { safe = λ h. h; grown = ([], refl); empty = λ h. tt }

  asked :
      (d : Str) (w : World)
      → let r = dataset_used_bytes sys d w in
        Checked sys w (d ∷ []) ((if ltb 0 r.0 then fail (pool_has_data name d r.0) else done) r.1)
  unfolding dataset_used_bytes
  asked d w =
      let used = used_of_reply (sys.answer w.trace (zfs_get_used d)) in
      elim (Bool-cases (ltb 0 used)) [
        | inl e ↦
            rw (e, if◌then◌else◌)
              (record { safe = λ h. (tt, h); grown = (zfs_get_used d ∷ [], refl); empty = λ k. cc })
        | inr e ↦
            rw (e, if◌then◌else◌)
              (record {
                safe = λ h. (tt, h);
                grown = (zfs_get_used d ∷ [], refl);
                empty = λ k. (([], w.trace, refl, ground arith), tt);
              })
      ]

  check_empty-Checked :
      (line : List Str) (w : World) → Checked sys w (child name line) (check_empty sys name line w)
  unfolding child check_empty dataset_used_bytes
  check_empty-Checked [] w = Checked-pass w
  check_empty-Checked (d ∷ []) w = Checked-pass w
  check_empty-Checked (d ∷ used ∷ rest) w = elim (Bool-cases (str_eq d name)) [
    | inl e ↦ rw (e, check_empty, child) (Checked-pass w)
    | inr e ↦ rw (e, check_empty, child) (asked d w)
  ]

  Checked-bind :
      (w : World) (ds es : List Str) (m n : Action (Unit {0}))
      → Checked sys w ds (m w)
      → Checked sys (m w).1 es (n (m w).1)
      → Checked sys w (ds ++ es) ((m >> n) w)
  Checked-bind w ds es m n h k = go (m w).0 refl
    where
      go : (o : Outcome (Unit {0})) → (m w).0 ≡ o → Checked sys w (ds ++ es) ((m >> n) w)
      go (err x) e = rw (e, ◌>>=◌) (record { safe = h.safe; grown = h.grown; empty = λ c. cc })
      go (ok x) e =
          let (l, p) = h.grown in
          let (l', q) = k.grown in
          rw (e, ◌>>=◌)
            (record {
              safe = λ s. k.safe (h.safe s);
              grown = (l' ++ l, q ∙ ap (λ t. l' ++ t) p ∙ sym (append_assoc l' l w.trace));
              empty = λ c.
                  All-append (ReadsZero sys (n (m w).1).1.trace) ds es
                    (All-weaken
                      (λ d a.
                        subst (λ t. ReadsZero sys t d) (sym q)
                          (Answered-later sys _ (λ r. used_of_reply r ≡ 0) l' _ a))
                      ds (h.empty e))
                    (k.empty c);
            })

  check_all_empty-Checked :
      (lines : List Str) (w : World)
      → Checked sys w (children name lines) (check_all_empty sys name lines w)
  unfolding children check_all_empty
  check_all_empty-Checked [] w = Checked-pass w
  check_all_empty-Checked (line ∷ lines) w =
      Checked-bind w _ _ (check_empty sys name (fields line)) (check_all_empty sys name lines)
        (check_empty-Checked (fields line) w) (check_all_empty-Checked lines _)

  check_listing-Checked :
      (r : Reply) (w : World) → Checked sys w (listed name r) (check_listing sys name r w)
  unfolding listed check_listing
  check_listing-Checked r w = elim (Bool-cases r.failed) [
    | inl e ↦ rw (e, if◌then◌else◌) (Checked-pass w)
    | inr e ↦ rw (e, if◌then◌else◌) (check_all_empty-Checked (split 10 r.output) w)
  ]

  -- The destroying command after a check that passed or did not.
  destroy_after :
      (w : World) (o : Outcome (Unit {0}) × World)
      → let listing = sys.answer w.trace (zfs_list_used name) in
        Checked sys (record w { trace = zfs_list_used name ∷ w.trace }) (listed name listing) o
        → IsSafeTrace sys w.trace
        → IsSafeTrace sys
            (((λ _. o)
                >> (do r ← ask (call sys (zpool_destroy name)); check (command_failed name) r))
              w).1.trace
  unfolding call
  destroy_after w (err e, w') c h = c.safe (tt, h)
  destroy_after w (ok tt, w') c h =
      rw world-check ((c.grown.0, w.trace, c.grown.1, c.empty refl), c.safe (tt, h))

  pub destroy_pool-KeepsSafe : KeepsSafe sys (destroy_pool sys name)
  unfolding destroy_pool call
  destroy_pool-KeepsSafe = record {
    at = λ w h.
        let listing = sys.answer w.trace (zfs_list_used name) in
        let w' = record w { trace = zfs_list_used name ∷ w.trace } in
        destroy_after w (check_listing sys name listing w') (check_listing-Checked listing w') h;
  }
