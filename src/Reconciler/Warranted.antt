-- ===== src/Reconciler/Warranted.antt =====
-- Which links a reconciliation creates and which it gives addresses.
use d_plane_os.Prelude.{
  ◌≡◌, Str, str, str_eq, member, member_iff, Bool, true, false, not, ◌||◌, Bool-cases, pick, some,
  All, In, inl, inr, List, [], ◌∷◌, map, if◌then◌else◌,
}
use d_plane_os.Reconciler.{
  BondState, VlanState, NetworkState, Tables, Call, link_add_bond, link_add_vlan, link_set_down,
  link_set_up, link_set_master, addr_add, route_replace, Kernel, Progress, make, try_call,
  restore_slaves, after_bond, restore_bond, after_vlan, restore_vlan, counted, restore_bonds,
  restore_vlans, has_address, restore_route, after_address, restore_address, restore_addresses,
  rows_of, start, run_with, run, load_bond,
}

-- A link is created only if it was missing at the start, and an address is only given to one that was there.
pub IsWarranted : List Str → Call → Type 0
IsWarranted present (link_add_bond n mode) = ¬ In n present
IsWarranted present (link_add_vlan n parent vid) = ¬ In n present
IsWarranted present (addr_add i cidr) = In i present
IsWarranted present (link_set_down n) = Unit
IsWarranted present (link_set_up n) = Unit
IsWarranted present (link_set_master s n) = Unit
IsWarranted present (route_replace gateway i) = Unit

absent : (n : Str) (present : List Str) → member n present ≡ false → ¬ In n present
absent n present h i = cc (h, (member_iff n present).1 i)

module _ (k : Kernel) (present : List Str) where
  AllWarranted : Progress → Type 0
  AllWarranted p = All (IsWarranted present) p.calls

  try_call-AllWarranted :
      (c : Call) (p : Progress)
      → IsWarranted present c
      → AllWarranted p
      → AllWarranted (try_call k c p)
  unfolding try_call make AllWarranted
  try_call-AllWarranted c p h a = (h, a)

  restore_slaves-AllWarranted :
      (bond : Str) (slaves : List Str) (p : Progress)
      → AllWarranted p
      → AllWarranted (restore_slaves k bond slaves p)
  unfolding restore_slaves try_call make AllWarranted IsWarranted
  restore_slaves-AllWarranted bond [] p a = a
  restore_slaves-AllWarranted bond (s ∷ ss) p a =
      restore_slaves-AllWarranted bond ss _ (tt, (tt, a))

  counted-AllWarranted : (r : Bool × Progress) → AllWarranted r.1 → AllWarranted (counted r)
  unfolding counted AllWarranted
  counted-AllWarranted (true, p) a = a
  counted-AllWarranted (false, p) a = a

  after_bond-AllWarranted :
      (b : BondState) (r : Bool × Progress) → AllWarranted r.1 → AllWarranted (after_bond k b r).1
  unfolding after_bond make AllWarranted IsWarranted
  after_bond-AllWarranted b (true, p) a = a
  after_bond-AllWarranted b (false, p) a = (tt, restore_slaves-AllWarranted b.name b.slaves p a)

  restore_bonds-AllWarranted :
      (bs : List BondState) (p : Progress)
      → AllWarranted p
      → AllWarranted (restore_bonds k present bs p)
  unfolding restore_bonds restore_bond make AllWarranted IsWarranted
  restore_bonds-AllWarranted [] p a = a
  restore_bonds-AllWarranted (b ∷ bs) p a =
      restore_bonds-AllWarranted bs _ (elim (Bool-cases (member b.name present)) [
        | inl e ↦ rw (e, if◌then◌else◌) a
        | inr e ↦
            rw (e, if◌then◌else◌)
              (counted-AllWarranted _ (
                after_bond-AllWarranted b (make k (link_add_bond b.name b.mode) p)
                  (absent b.name present e, a)))
      ])

  after_vlan-AllWarranted :
      (v : VlanState) (r : Bool × Progress) → AllWarranted r.1 → AllWarranted (after_vlan k v r).1
  unfolding after_vlan make AllWarranted IsWarranted
  after_vlan-AllWarranted v (true, p) a = a
  after_vlan-AllWarranted v (false, p) a = (tt, a)

  restore_vlans-AllWarranted :
      (vs : List VlanState) (p : Progress)
      → AllWarranted p
      → AllWarranted (restore_vlans k present vs p)
  unfolding restore_vlans restore_vlan make AllWarranted IsWarranted
  restore_vlans-AllWarranted [] p a = a
  restore_vlans-AllWarranted (v ∷ vs) p a =
      restore_vlans-AllWarranted vs _ (elim (Bool-cases (member v.name present)) [
        | inl e ↦ rw (e, if◌then◌else◌) a
        | inr e ↦
            rw (e, if◌then◌else◌)
              (counted-AllWarranted _ (
                after_vlan-AllWarranted v (make k (link_add_vlan v.name v.parent v.vid) p)
                  (absent v.name present e, a)))
      ])

  after_address-AllWarranted :
      (n : NetworkState) (r : Bool × Progress)
      → AllWarranted r.1
      → AllWarranted (after_address k n r)
  unfolding after_address restore_route counted try_call make AllWarranted IsWarranted
  after_address-AllWarranted n (true, p) a = a
  after_address-AllWarranted n (false, p) a =
      pick (λ (x : Progress). All (IsWarranted present) x.calls) (str_eq n.gateway []) _ _ a (tt, a)

  restore_addresses-AllWarranted :
      (ns : List NetworkState) (p : Progress)
      → AllWarranted p
      → AllWarranted (restore_addresses k present ns p)
  unfolding restore_addresses restore_address make IsWarranted AllWarranted
  restore_addresses-AllWarranted [] p a = a
  restore_addresses-AllWarranted (n ∷ ns) p a = restore_addresses-AllWarranted ns _ (
      pick AllWarranted (not (str_eq n.type (str "static")) || str_eq n.cidr []) _ _ a
        (elim (Bool-cases (member n.interface present)) [
          | inr e ↦ rw (e, if◌then◌else◌) a
          | inl e ↦
              rw (e, if◌then◌else◌)
                (pick AllWarranted (has_address k p n.interface n.cidr) _ _ a (
                  after_address-AllWarranted n (make k (addr_add n.interface n.cidr) p)
                    ((member_iff n.interface present).0 e, a)))
        ]))

-- Whatever the tables hold and whichever calls fail, a reconciliation creates only links that the kernel
-- did not list at its start, and gives addresses only to links that it did list. A link that is created
-- therefore gets no address.
pub run-IsWarranted :
    (k : Kernel) (readable : Bool × Bool × Bool) (t : Tables) (present : List Str)
    → k.links ≡ some present
    → All (IsWarranted present) (run k readable t).calls
unfolding run run_with start AllWarranted
run-IsWarranted k (bonds, vlans, interfaces) t present h = rw h (
    restore_addresses-AllWarranted k present (rows_of interfaces t.interfaces) _ (
      restore_vlans-AllWarranted k present (rows_of vlans t.vlans) _
        (restore_bonds-AllWarranted k present (map load_bond (rows_of bonds t.bonds)) start tt)))
