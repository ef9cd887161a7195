-- ===== src/Rbac/Tables/Expiry.antt =====
-- The comparison of an expiry with the present.
use d_plane_os.Prelude.{arith, ◌≡◌, refl, ◌==◌, ltb, Str, str_lt, true, false, some, [], ◌∷◌, ◌++◌}
use d_plane_os.Rbac.Tables.{unexpired}

-- An expiry written as RFC 3339 (date, T, time) does not pass on its own day: at every time of that day,
-- in the form of datetime('now') (date, blank, time), the assignment still counts.
pub unexpired-same_day :
    (date now expiry : Str)
    → unexpired (date ++ (b' ' ∷ now)) (some (date ++ (b'T' ∷ expiry))) ≡ true
unfolding unexpired str_lt
unexpired-same_day [] now expiry = refl
unexpired-same_day (c ∷ date) now expiry =
    let same : (c == c) ≡ true = ground arith in
    let under : ltb c c ≡ false = ground arith in
    rw (same, under) (unexpired-same_day date now expiry)
