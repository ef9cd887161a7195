-- ===== src/Nixwriter/Restart.antt =====
-- The first call after a start of the daemon.
use mathlib.Core.List.{Permᴰ, append_assoc}
use d_plane_os.Prelude.{
  ◌≡◌, refl, ap, Str, str, Bool, true, false, Option, some, none, List, [], ◌∷◌, ◌++◌, join,
}
use d_plane_os.Nixwriter.Text.{line, header_text, stanza_lines, file_text}
use d_plane_os.Nixwriter.{
  Nix, new, drop_stanza, put_stanza, replace_fragment, flush, set_stanza, load_from_disk,
}

-- One entry has one order.
alone :
    (x : Str × Str) {l m : List (Str × Str)}
    → Permᴰ l m
    → (m ≡ [] → l ≡ []) × (m ≡ x ∷ [] → l ≡ x ∷ [])
alone x Permᴰ.nil = (λ h. refl, λ h. cc)
alone x (Permᴰ.cons e p) = let ih = (alone x p).0 in (λ h. cc, λ h. let tail = ih (cc) in cc)
alone x (Permᴰ.swap e f) = (λ h. cc, λ h. cc)
alone x (Permᴰ.trans p q) =
    let (a, b) = alone x p in let (c, d) = alone x q in (λ h. a (c h), λ h. b (d h))

-- The text of a fragment with one stanza.
file_text-one :
    (now key content : Str)
    → file_text now ((key, content) ∷ []) ≡ header_text now ++ (content ++ str "\n}\n")
unfolding file_text stanza_lines line join str
file_text-one now key content =
    ap (λ (t : Str). header_text now ++ t) (append_assoc content (10 ∷ []) (str "}\n"))

-- After a start on NixOS, LoadFromDisk keeps no stanza of the fragment that is there: where the file can
-- be written, and ranging over the map gives its entries in some order, the first stanza that is set
-- replaces the whole fragment by the header, the content of this stanza alone, a line end, and the line
-- with the closing brace.
pub set_stanza-load_from_disk :
    (nix : Nix) (rebuild : Bool) (fragment : Option Str) (key content : Str)
    → nix.trouble ≡ none
    → ((ss : List (Str × Str)) → Permᴰ (nix.range_order ss) ss)
    → (set_stanza nix key content (load_from_disk false (new true rebuild fragment)).1).1.fragment
      ≡ some (header_text nix.now ++ (content ++ str "\n}\n"))
unfolding set_stanza load_from_disk new flush put_stanza drop_stanza replace_fragment
set_stanza-load_from_disk nix rebuild fragment key content h orders =
    let one = (alone (key, content) (orders ((key, content) ∷ []))).1 refl in
    rw (h, one, file_text-one nix.now key content) refl
