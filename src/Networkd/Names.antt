-- ===== src/Networkd/Names.antt =====
-- The names that the writer accepts and the names of its files.
use d_plane_os.Prelude.{
  ℕ, suc, ◌==◌, ℤ, pos, negsuc, Str, str, str_eq, contains, byte_length, map, decimal, Bool, true,
  false, not, ◌&&◌, ◌||◌, leb, ltb, Option, some, none, List, [], ◌∷◌, ◌++◌, if◌then◌else◌,
}

pub data NetError : Type 0 where
  invalid_length : Str → NetError
  invalid_character : Str → ℕ → NetError
  no_prefix_length unknown_bond_mode : Str → NetError

unfoldable pub is_iface_char : ℕ → Bool
is_iface_char c =
    (leb b'a' c && leb c b'z')
    || ((leb b'A' c && leb c b'Z')
        || ((leb b'0' c && leb c b'9') || ((c == b'-') || ((c == b'_') || (c == b'.')))))

unfoldable pub first_bad : Str → Str → Option NetError
unfolding is_iface_char
first_bad iface [] = none
first_bad iface (c ∷ s) =
    if not (is_iface_char c) then some (invalid_character iface c) else first_bad iface s

unfoldable pub validate_iface : Str → Option NetError
unfolding byte_length first_bad
validate_iface iface =
    if (byte_length iface == 0) || ltb 16 (byte_length iface)
    then some (invalid_length iface)
    else first_bad iface iface

unfoldable pub validate_cidr : Str → Option NetError
unfolding contains
validate_cidr cidr = if not (contains (b'/' ∷ []) cidr) then some (no_prefix_length cidr) else none

only_ip_chars : Str → Bool
only_ip_chars [] = true
only_ip_chars (c ∷ s) =
    ((leb b'0' c && leb c b'9') || ((c == b'.') || (c == b':'))) && only_ip_chars s

unfoldable pub is_valid_ip : Str → Bool
unfolding only_ip_chars byte_length
is_valid_ip s = if (byte_length s == 0) || ltb 45 (byte_length s) then false else only_ip_chars s

mode_in : List (Str × Str) → Str → Option Str
unfolding str_eq
mode_in [] mode = none
mode_in ((m, nd) ∷ ms) mode = if str_eq m mode then some nd else mode_in ms mode

abbrev pub bond_modes : List (Str × Str)
bond_modes =
    (str "balance-rr", str "balance-rr")
    ∷ (str "active-backup", str "active-backup")
    ∷ (str "balance-xor", str "balance-xor")
    ∷ (str "broadcast", str "broadcast")
    ∷ (str "802.3ad", str "802.3ad")
    ∷ (str "balance-tlb", str "balance-tlb")
    ∷ (str "balance-alb", str "balance-alb")
    ∷ (str "lacp", str "802.3ad")
    ∷ (str "failover", str "active-backup")
    ∷ (str "roundrobin", str "balance-rr")
    ∷ []

unfoldable pub bond_mode_to_networkd : Str → Option Str
unfolding mode_in
bond_mode_to_networkd mode = mode_in bond_modes mode

unfoldable pub sanitize_iface : Str → Str
sanitize_iface iface = map (λ (c : ℕ). if c == b'.' then b'-' else c) iface

unfoldable pub file_prefix : Str
unfolding str
file_prefix = str "50-dplane-"

-- "%d"
unfoldable pub vid_text : ℤ → Str
unfolding decimal
vid_text (pos n) = decimal n
vid_text (negsuc n) = b'-' ∷ decimal (suc n)

unfoldable pub network_file : Str → Str
unfolding sanitize_iface str
network_file iface = file_prefix ++ (sanitize_iface iface ++ str ".network")

unfoldable pub vlan_netdev_file : Str → ℤ → Str
unfolding sanitize_iface vid_text str
vlan_netdev_file parent vid =
    file_prefix ++ (sanitize_iface parent ++ (str "." ++ (vid_text vid ++ str ".netdev")))

unfoldable pub vlan_parent_file : Str → ℤ → Str
unfolding sanitize_iface vid_text str
vlan_parent_file parent vid =
    file_prefix ++ (sanitize_iface parent ++ (str "-vlan" ++ (vid_text vid ++ str ".network")))

unfoldable pub bond_netdev_file : Str → Str
unfolding sanitize_iface str
bond_netdev_file name = file_prefix ++ (str "bond-" ++ (sanitize_iface name ++ str ".netdev"))

unfoldable pub bond_network_file : Str → Str
unfolding sanitize_iface str
bond_network_file name = file_prefix ++ (str "bond-" ++ (sanitize_iface name ++ str ".network"))

unfoldable pub slave_file : Str → Str → Str
unfolding sanitize_iface str
slave_file bond slave =
    file_prefix
    ++ (sanitize_iface slave ++ (str "-slave-" ++ (sanitize_iface bond ++ str ".network")))
