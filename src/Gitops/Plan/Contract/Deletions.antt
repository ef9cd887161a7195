-- ===== src/Gitops/Plan/Contract/Deletions.antt =====
-- The third phase of ComputeDiff keeps the safety contract.
use mathlib.Core.Path.{subst}
use mathlib.Core.List.{append_assoc}
use d_plane_os.Prelude.{
  ℕ, ◌<◌, All-weaken, ltb, Bool-cases, ◌≡◌, ◌≢◌, refl, sym, ap, ◌∙◌, Str, Bool, true, false, none,
  All, In, All-append, List, [], ◌∷◌, ◌++◌, arith, map, str_eq_iff, Option-cases, inl, inr,
}
use d_plane_os.Gitops.State.{
  DesiredPool, DesiredDataset, DesiredShare, DesiredState, LivePool, LiveDataset, LiveShare, delete,
  blocked, ResourceKind, pool, dataset, share, DiffItem,
}
use d_plane_os.Gitops.System.{System, World, Effect, Reply, zfs_get_used, smbstatus}
use d_plane_os.Gitops.Live.{
  used_of_reply, active_in_reply, dataset_used_bytes, has_active_smb_connections,
}
use d_plane_os.Gitops.Plan.{
  map_get, collect, collect_live, delete_pool_item, delete_dataset_item, delete_share_item,
  dataset_verdict, share_verdict,
}
use d_plane_os.Gitops.Plan.Contract.{Answered, declared, Justified, Held, IsContract}

module _ {ℓ} {A : Type ℓ} where
  pub map_get-eq_none :
      (name : A → Str) (n : Str) (xs : List A) → map_get name n xs ≡ none → ¬ In n (map name xs)
  unfolding map_get
  map_get-eq_none name n [] h k = k
  map_get-eq_none name n (x ∷ xs) h k =
      ground (arith, map_get-eq_none name n xs, str_eq_iff (name x) n)

  pub collect-All :
      (P : DiffItem → Type 0) (body : A → List DiffItem)
      → ((x : A) → All P (body x))
      → (xs : List A) → All P (collect body xs)
  unfolding collect
  collect-All P body h [] = tt
  collect-All P body h (x ∷ xs) = All-append P _ _ (h x) (collect-All P body h xs)

pub Answered-later :
    (sys : System) (e : Effect) (Q : Reply → Type 0) (l t : List Effect)
    → Answered sys e Q t
    → Answered sys e Q (l ++ t)
Answered-later sys e Q l t (later, before, eq, q) =
    (l ++ later, before, ap (λ r. l ++ r) eq ∙ sym (append_assoc l later (e ∷ before)), q)

Justified-later :
    (sys : System) (k : ResourceKind) (n : Str) (l t : List Effect)
    → Justified sys k n t
    → Justified sys k n (l ++ t)
Justified-later sys pool n l t h = h
Justified-later sys dataset n l t h = Answered-later sys _ (λ r. used_of_reply r ≡ 0) l t h
Justified-later sys share n l t h = Answered-later sys _ (λ r. active_in_reply n r ≡ false) l t h

Held-later :
    (sys : System) (k : ResourceKind) (n : Str) (l t : List Effect)
    → Held sys k n t
    → Held sys k n (l ++ t)
Held-later sys pool n l t h = h
Held-later sys dataset n l t h = Answered-later sys _ (λ r. 0 < used_of_reply r) l t h
Held-later sys share n l t h = Answered-later sys _ (λ r. active_in_reply n r ≡ true) l t h

module _ (sys : System) (desired : DesiredState) where
  pub later-IsContract :
      (l t : List Effect) (it : DiffItem)
      → IsContract sys desired t it
      → IsContract sys desired (l ++ t) it
  later-IsContract l t it c = record {
    unapproved = c.unapproved;
    undeclared = c.undeclared;
    justified = λ h. Justified-later sys it.kind it.name l t (c.justified h);
    held = λ h. Held-later sys it.kind it.name l t (c.held h);
  }

  -- Items with another action ask for nothing.
  pub harmless :
      (t : List Effect) (it : DiffItem)
      → it.approved ≡ false
      → it.action ≢ delete
      → it.action ≢ blocked
      → IsContract sys desired t it
  harmless t it a d b = record {
    unapproved = a;
    undeclared = λ h. elim h [ inl e ↦ absurd (d e) | inr e ↦ absurd (b e) ];
    justified = λ h. absurd (d h);
    held = λ h. absurd (b h);
  }

  -- What a loop that asks the system does to the trace, and that its items keep the contract.
  abbrev pub Keeps : World → List DiffItem × World → Type 0
  Keeps w r =
      ((l : List Effect) × (r.1.trace ≡ l ++ w.trace)) × All (IsContract sys desired r.1.trace) r.0

  pub collect_live-Keeps {ℓ} :
      {A : Type ℓ} (body : A → World → List DiffItem × World)
      → ((x : A) (w : World) → Keeps w (body x w))
      → (xs : List A) (w : World) → Keeps w (collect_live body xs w)
  unfolding collect_live
  collect_live-Keeps body h [] w = (([], refl), tt)
  collect_live-Keeps body h (x ∷ xs) w =
      let w' = (body x w).1 in
      let ((l, e), now) = h x w in
      let ((m, f), rest) = collect_live-Keeps body h xs w' in
      let final = (collect_live body xs w').1.trace in
      (
        (m ++ l, f ∙ ap (λ t. m ++ t) e ∙ sym (append_assoc m l w.trace)),
        All-append (IsContract sys desired final) _ _
            (All-weaken
              (λ it c. subst (λ t. IsContract sys desired t it) (sym f) (later-IsContract m _ it c))
              _ now)
            rest,
      )

  pub pool_item-IsContract :
      (t : List Effect) (lp : LivePool)
      → All (IsContract sys desired t) (delete_pool_item desired lp)
  unfolding delete_pool_item
  pool_item-IsContract t lp =
      let name = λ (p : DesiredPool). p.name in
      elim (Option-cases (map_get name lp.name desired.pools)) [
        | inl e ↦
            rw (e, All)
              (
                record {
                  unapproved = refl;
                  undeclared = λ h. map_get-eq_none name lp.name desired.pools e;
                  justified = λ h. cc;
                  held = λ h. tt;
                },
                tt,
              )
        | inr (dp, e) ↦ rw (e, All) tt
      ]

  dataset_verdict-IsContract :
      (ld : LiveDataset) (t : List Effect) (used : ℕ)
      → ¬ In ld.name (declared desired dataset)
      → (used ≡ 0 → Justified sys dataset ld.name t)
      → (0 < used → Held sys dataset ld.name t)
      → IsContract sys desired t (dataset_verdict ld used)
  unfolding dataset_verdict
  dataset_verdict-IsContract ld t used fresh free held = elim (Bool-cases (ltb 0 used)) [
    | inl e ↦ rw e (record {
      unapproved = refl;
      undeclared = λ h. fresh;
      justified = λ h. cc;
      held = λ h. held (ground arith);
    })
    | inr e ↦ rw e (record {
      unapproved = refl;
      undeclared = λ h. fresh;
      justified = λ h. free (ground arith);
      held = λ h. cc;
    })
  ]

  pub dataset_item-Keeps :
      (ld : LiveDataset) (w : World) → Keeps w (delete_dataset_item sys desired ld w)
  unfolding delete_dataset_item dataset_used_bytes
  dataset_item-Keeps ld w =
      let name = λ (d : DesiredDataset). d.name in
      elim (Option-cases (map_get name ld.name desired.datasets)) [
        | inl e ↦
            rw (e, delete_dataset_item)
              (
                (zfs_get_used ld.name ∷ [], refl),
                (
                  dataset_verdict-IsContract ld _ _
                      (map_get-eq_none name ld.name desired.datasets e)
                      (λ h. ([], w.trace, refl, h)) (λ h. ([], w.trace, refl, h)),
                  tt,
                ),
              )
        | inr (dd, e) ↦ rw (e, delete_dataset_item) (([], refl), tt)
      ]

  share_verdict-IsContract :
      (ls : LiveShare) (t : List Effect) (active : Bool)
      → ¬ In ls.name (declared desired share)
      → (active ≡ false → Justified sys share ls.name t)
      → (active ≡ true → Held sys share ls.name t)
      → IsContract sys desired t (share_verdict ls active)
  unfolding share_verdict
  share_verdict-IsContract ls t false fresh free held = record {
    unapproved = refl;
    undeclared = λ h. fresh;
    justified = λ h. free refl;
    held = λ h. cc;
  }
  share_verdict-IsContract ls t true fresh free held = record {
    unapproved = refl;
    undeclared = λ h. fresh;
    justified = λ h. cc;
    held = λ h. held refl;
  }

  pub share_item-Keeps : (ls : LiveShare) (w : World) → Keeps w (delete_share_item sys desired ls w)
  unfolding delete_share_item has_active_smb_connections
  share_item-Keeps ls w =
      let name = λ (s : DesiredShare). s.name in
      elim (Option-cases (map_get name ls.name desired.shares)) [
        | inl e ↦
            rw (e, delete_share_item)
              (
                (smbstatus ∷ [], refl),
                (
                  share_verdict-IsContract ls _ _ (map_get-eq_none name ls.name desired.shares e)
                      (λ h. ([], w.trace, refl, h)) (λ h. ([], w.trace, refl, h)),
                  tt,
                ),
              )
        | inr (ds, e) ↦ rw (e, delete_share_item) (([], refl), tt)
      ]
