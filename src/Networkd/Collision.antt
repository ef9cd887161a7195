-- ===== src/Networkd/Collision.antt =====
-- Two interfaces with one file.
use d_plane_os.Prelude.{
  ◌≡◌, refl, ap, Str, str_eq_self, pick, ◌==◌, Option, some, none, List, [], ◌∷◌, ◌++◌,
  if◌then◌else◌,
}
use d_plane_os.Networkd.Names.{sanitize_iface, network_file, validate_iface}
use d_plane_os.Networkd.Text.{static_text}
use d_plane_os.Networkd.Disk.{Os, put, attempt, atomic_write}
use d_plane_os.Networkd.{
  Network, write_file, after_write, write_then, reload, write_and_reload, check_cidr, when_valid,
  set_static, set_dhcp,
}

sanitize_dot : (a b : Str) → sanitize_iface (a ++ (b'.' ∷ b)) ≡ sanitize_iface (a ++ (b'-' ∷ b))
unfolding sanitize_iface
sanitize_dot [] b = refl
sanitize_dot (c ∷ a) b = ap (λ (s : Str). (if c == b'.' then b'-' else c) ∷ s) (sanitize_dot a b)

same_file : (a b : Str) → network_file (a ++ (b'.' ∷ b)) ≡ network_file (a ++ (b'-' ∷ b))
unfolding network_file
same_file a b = rw (sanitize_dot a b) refl

put-same : (name : Str) (c : Option Str) (files : Str → Option Str) → put name c files name ≡ c
unfolding put
put-same name c files = rw (str_eq_self name, if◌then◌else◌) refl

-- A call for a name with a dot that succeeds to write puts its configuration into the file of the interface
-- with a dash in the dot's place, whatever that file held.
pub set_dhcp-collision :
    (os : Os) (a b : Str) (dns : List Str) (n : Network)
    → validate_iface (a ++ (b'.' ∷ b)) ≡ none
    → os.writing (network_file (a ++ (b'-' ∷ b))) ≡ none
    → (set_dhcp os (a ++ (b'.' ∷ b)) dns n).1.files (network_file (a ++ (b'-' ∷ b)))
      ≡ some (static_text (a ++ (b'.' ∷ b)) [] [] dns)
unfolding set_dhcp set_static reload attempt atomic_write after_write when_valid check_cidr
    write_and_reload write_then write_file
set_dhcp-collision os a b dns n h k =
    let written =
      put-same (network_file (a ++ (b'-' ∷ b))) (some (static_text (a ++ (b'.' ∷ b)) [] [] dns))
        n.files in
    rw (h, same_file a b, k)
      (pick
        (λ (x : Network).
          x.files (network_file (a ++ (b'-' ∷ b))) ≡ some (static_text (a ++ (b'.' ∷ b)) [] [] dns))
        n.networkd_up _ _ written written)
