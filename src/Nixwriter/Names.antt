-- ===== src/Nixwriter/Names.antt =====
-- The names that the writer accepts.
use d_plane_os.Prelude.{
  ◌==◌, Str, byte_length, cut, all_chars, Bool, false, ◌&&◌, ◌||◌, leb, ltb, ℕ, some, none, [], ◌∷◌,
  if◌then◌else◌,
}

is_letter_or_digit : ℕ → Bool
is_letter_or_digit c =
    (leb b'a' c && leb c b'z') || ((leb b'A' c && leb c b'Z') || (leb b'0' c && leb c b'9'))

unfoldable pub validate_iface : Str → Bool
unfolding byte_length is_letter_or_digit all_chars
validate_iface s =
    if (byte_length s == 0) || ltb 16 (byte_length s)
    then false
    else all_chars (λ c. is_letter_or_digit c || ((c == b'-') || ((c == b'_') || (c == b'.')))) s

unfoldable pub validate_ip : Str → Bool
unfolding byte_length all_chars
validate_ip s =
    if (byte_length s == 0) || ltb 45 (byte_length s)
    then false
    else all_chars (λ c. (leb b'0' c && leb c b'9') || ((c == b'.') || (c == b':'))) s

-- The parts around the first slash.
unfoldable pub validate_cidr : Str → Bool
unfolding validate_ip byte_length cut
validate_cidr s = elim (cut (b'/' ∷ []) s) [
  | none ↦ false
  | some (ip, len) ↦ validate_ip ip && (ltb 0 (byte_length len) && leb (byte_length len) 3)
]

unfoldable pub validate_hostname : Str → Bool
unfolding byte_length is_letter_or_digit all_chars
validate_hostname s =
    if (byte_length s == 0) || ltb 63 (byte_length s)
    then false
    else all_chars (λ c. is_letter_or_digit c || (c == b'-')) s
