-- ===== src/Gitops/Validate/Sound.antt =====
-- ValidState accepts exactly the states that meet the rules.
use d_plane_os.Prelude.{
  ℕ, ◌+◌, ◌≡◌, refl, sym, ◌↔◌, inl, inr, Str, str, All, In, Distinct, List, [], ◌∷◌, map,
  str_eq_iff,
}
use d_plane_os.Gitops.State.{DesiredPool, DesiredDataset, DesiredShare, DesiredState}
use d_plane_os.Gitops.Validate.{
  StateError, in_pool, in_dataset, in_share, unsupported_version, tagged, pools_errors,
  datasets_errors, shares_errors, valid_state,
}
use d_plane_os.Gitops.Validate.Rules.{IsPool, IsDataset, IsShare, IsValid}
use d_plane_os.Gitops.Validate.Items.{
  append_iff, when-append_iff, not_iff, pool_errors_iff, dataset_errors_iff, share_errors_iff,
}

tagged_iff {ℓ κ} :
    {A : Type ℓ} {E : Type κ} {P : Type 0} (f : A → E) (xs : List A)
    → (xs ≡ []) ↔ P
    → (tagged f xs ≡ []) ↔ P
unfolding tagged
tagged_iff f [] h = (λ e. h.0 refl, λ e. refl)
tagged_iff f (x ∷ xs) h = (λ e. cc, λ p. cc (h.1 p))

-- No name is in `seen`.
abbrev AllNew : List Str → List Str → Type 0
AllNew seen [] = Unit
AllNew seen (n ∷ ns) = (¬ In n seen) × AllNew seen ns

-- The names are new one after the other.
abbrev NewInTurn : List Str → List Str → Type 0
NewInTurn seen [] = Unit
NewInTurn seen (n ∷ ns) = (¬ In n seen) × NewInTurn (n ∷ seen) ns

AllNew-cons_iff :
    (n : Str) (seen ns : List Str) → AllNew (n ∷ seen) ns ↔ (AllNew seen ns × (¬ In n ns))
AllNew-cons_iff n seen [] = (λ h. (tt, λ k. k), λ h. tt)
AllNew-cons_iff n seen (m ∷ ns) =
    let ih = AllNew-cons_iff n seen ns in
    (
      λ h.
          let (a, b) = ih.0 h.1 in
          ((λ k. h.0 (inr k), a), λ k. elim k [ inl e ↦ h.0 (inl (sym e)) | inr r ↦ b r ]),
      λ h. (
        λ k. elim k [ inl e ↦ h.1 (inl (sym e)) | inr r ↦ h.0.0 r ],
        ih.1 (h.0.1, λ r. h.1 (inr r)),
      ),
    )

-- Telling the names apart by a growing set is the same as their being distinct.
NewInTurn-iff : (seen ns : List Str) → NewInTurn seen ns ↔ (AllNew seen ns × Distinct ns)
NewInTurn-iff seen [] = (λ h. (tt, tt), λ h. tt)
NewInTurn-iff seen (n ∷ ns) =
    let ih = NewInTurn-iff (n ∷ seen) ns in
    let c = AllNew-cons_iff n seen ns in
    (
      λ h. let (new, distinct) = ih.0 h.1 in let (a, b) = c.0 new in ((h.0, a), (b, distinct)),
      λ h. (h.0.0, ih.1 (c.1 (h.0.1, h.1.0), h.1.1)),
    )

AllNew-nil : (ns : List Str) → AllNew [] ns
AllNew-nil [] = tt
AllNew-nil (n ∷ ns) = (λ k. k, AllNew-nil ns)

-- The shape that the three loops share.
module _ {A : Type 0} (name : A → Str) (Good : A → Type 0)
    (errors : ℕ → List Str → List A → List StateError)
    (stop : (i : ℕ) (seen : List Str) → errors i seen [] ≡ [])
    (step : (i : ℕ) (seen : List Str) (x : A) (xs : List A)
      → (errors i seen (x ∷ xs) ≡ [])
        ↔ ((Good x × (¬ In (name x) seen)) × (errors (i + 1) (name x ∷ seen) xs ≡ []))) where
  loop_turn :
      (i : ℕ) (seen : List Str) (xs : List A)
      → (errors i seen xs ≡ []) ↔ (All Good xs × NewInTurn seen (map name xs))
  loop_turn i seen [] = (λ h. (tt, tt), λ h. stop i seen)
  loop_turn i seen (x ∷ xs) =
      let ih = loop_turn (i + 1) (name x ∷ seen) xs in
      let s = step i seen x xs in
      (
        λ h.
            let (now, later) = s.0 h in
            let (good, new) = ih.0 later in ((now.0, good), (now.1, new)),
        λ h. s.1 ((h.0.0, h.1.0), ih.1 (h.0.1, h.1.1)),
      )

  loop_iff : (xs : List A) → (errors 0 [] xs ≡ []) ↔ (All Good xs × Distinct (map name xs))
  loop_iff xs =
      let l = loop_turn 0 [] xs in
      let d = NewInTurn-iff [] (map name xs) in
      (
        λ h. let (good, new) = l.0 h in (good, (d.0 new).1),
        λ h. l.1 (h.0, d.1 (AllNew-nil (map name xs), h.1)),
      )

pools_errors_iff :
    (ps : List DesiredPool)
    → (pools_errors 0 [] ps ≡ [])
      ↔ (All IsPool ps × Distinct (map (λ (p : DesiredPool). p.name) ps))
unfolding pools_errors
pools_errors_iff =
    loop_iff (λ p. p.name) IsPool pools_errors (λ i seen. refl)
      (λ i seen p ps.
        append_iff _ _ (tagged_iff (in_pool i p.name) _ (pool_errors_iff seen p)) (λ h. h, λ h. h))

datasets_errors_iff :
    (ds : List DesiredDataset)
    → (datasets_errors 0 [] ds ≡ [])
      ↔ (All IsDataset ds × Distinct (map (λ (d : DesiredDataset). d.name) ds))
unfolding datasets_errors
datasets_errors_iff =
    loop_iff (λ d. d.name) IsDataset datasets_errors (λ i seen. refl)
      (λ i seen d ds.
        append_iff _ _ (tagged_iff (in_dataset i d.name) _ (dataset_errors_iff seen d))
          (λ h. h, λ h. h))

shares_errors_iff :
    (ss : List DesiredShare)
    → (shares_errors 0 [] ss ≡ [])
      ↔ (All IsShare ss × Distinct (map (λ (s : DesiredShare). s.name) ss))
unfolding shares_errors
shares_errors_iff =
    loop_iff (λ s. s.name) IsShare shares_errors (λ i seen. refl)
      (λ i seen s ss.
        append_iff _ _ (tagged_iff (in_share i s.name) _ (share_errors_iff seen s))
          (λ h. h, λ h. h))

-- ValidState returns no message exactly for a state of version 1 whose pools, datasets and shares
-- each meet the rules and have names that are distinct within their kind.
pub valid_state_iff : (s : DesiredState) → (valid_state s ≡ []) ↔ IsValid s
unfolding valid_state
valid_state_iff s =
    let h =
      when-append_iff _ (unsupported_version s.version) _
        (not_iff _ (str_eq_iff s.version (str "1")))
        (append_iff _ _ (pools_errors_iff s.pools)
          (append_iff _ _ (datasets_errors_iff s.datasets) (shares_errors_iff s.shares))) in
    (
      λ e.
          let (v, ((p, pd), ((d, dd), (c, cd)))) = h.0 e in
          record {
            version_ok = v;
            pools_ok = p;
            pools_distinct = pd;
            datasets_ok = d;
            datasets_distinct = dd;
            shares_ok = c;
            shares_distinct = cd;
          },
      λ k. h.1 (
        k.version_ok,
        (
          (k.pools_ok, k.pools_distinct),
          ((k.datasets_ok, k.datasets_distinct), (k.shares_ok, k.shares_distinct)),
        ),
      ),
    )
