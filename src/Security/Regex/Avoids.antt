-- ===== src/Security/Regex/Avoids.antt =====
-- Characters that no text of a pattern's language has, by looking at the pattern alone.
use d_plane_os.Prelude.{ℕ, ◌≡◌, arith, Str, Bool, true, not, ◌&&◌, All, In, [], ◌∷◌, all_chars}
use d_plane_os.Security.Regex.{in_spans, Regex, void, empty, set, seq, alt, star}
use d_plane_os.Security.Regex.Lang.{Matches, Within, Matches-All}

unfoldable pub avoids : Str → Regex → Bool
unfolding all_chars in_spans
avoids bad void = true
avoids bad empty = true
avoids bad (set spans) = all_chars (λ d. not (in_spans spans d)) bad
avoids bad (seq r s) = avoids bad r && avoids bad s
avoids bad (alt r s) = avoids bad r && avoids bad s
avoids bad (star r) = avoids bad r

abbrev pub IsNone : Str → ℕ → Type 0
IsNone bad c = ¬ In c bad

not_In :
    (p : ℕ → Bool) (bad : Str) (c : ℕ)
    → all_chars (λ d. not (p d)) bad ≡ true
    → p c ≡ true
    → IsNone bad c
unfolding all_chars
not_In p [] c h q k = k
not_In p (d ∷ bad) c h q k = ground (arith, k, not_In p bad c, h, q)

avoids-Within : (bad : Str) (r : Regex) → avoids bad r ≡ true → Within (IsNone bad) r
unfolding avoids
avoids-Within bad void h = tt
avoids-Within bad empty h = tt
avoids-Within bad (set spans) h = λ c k. not_In (in_spans spans) bad c h k
avoids-Within bad (seq r s) h =
    (avoids-Within bad r (ground (arith, h)), avoids-Within bad s (ground (arith, h)))
avoids-Within bad (alt r s) h =
    (avoids-Within bad r (ground (arith, h)), avoids-Within bad s (ground (arith, h)))
avoids-Within bad (star r) h = avoids-Within bad r h

pub Matches-avoids :
    (bad : Str) (r : Regex) (t : Str) → avoids bad r ≡ true → Matches r t → All (IsNone bad) t
Matches-avoids bad r t h m = Matches-All (IsNone bad) (avoids-Within bad r h) m
