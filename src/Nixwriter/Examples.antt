-- ===== src/Nixwriter/Examples.antt =====
-- A start on a machine with a fragment.
use mathlib.Core.List.Permᴰ
use d_plane_os.Prelude.{◌≡◌, refl, str, some, none, false, true, ◌++◌}
use d_plane_os.Nixwriter.Text.{header_text}
use d_plane_os.Nixwriter.{Nix, new, set_stanza, load_from_disk}
use d_plane_os.Nixwriter.Restart.{set_stanza-load_from_disk}

abbrev nix : Nix
nix = record {
  quote = λ s. s;
  range_order = λ ss. ss;
  now = str "2026-01-01 12:00:00 UTC";
  trouble = none;
}

set_stanza-load_from_disk_example :
    (set_stanza nix
      (str "hostname")
      (str "x")
      (load_from_disk false (new true false (some (str "old")))).1).1.fragment
    ≡ some (header_text (str "2026-01-01 12:00:00 UTC") ++ (str "x" ++ str "\n}\n"))
set_stanza-load_from_disk_example =
    set_stanza-load_from_disk nix false (some (str "old")) (str "hostname") (str "x") refl
      Permᴰ.refl
