-- ===== src/Security/Chars.antt =====
-- The ranges of characters that the patterns of the source name.
use Prim.Native.String.{String}
use d_plane_os.Prelude.{Str, str, [], ◌∷◌}
use d_plane_os.Security.Regex.{Spans}

abbrev pub lower : Spans
lower = (b'a', b'z') ∷ []

abbrev pub letters : Spans
letters = (b'a', b'z') ∷ (b'A', b'Z') ∷ []

abbrev pub digits : Spans
digits = (b'0', b'9') ∷ []

abbrev pub octal : Spans
octal = (b'0', b'7') ∷ []

abbrev pub lower_num : Spans
lower_num = (b'a', b'z') ∷ (b'0', b'9') ∷ []

abbrev pub alnum : Spans
alnum = (b'a', b'z') ∷ (b'A', b'Z') ∷ (b'0', b'9') ∷ []

-- What follows a pattern that has no `$`.
abbrev pub any_char : Spans
any_char = (0, 0x10ffff) ∷ []

single : Str → Spans
single [] = []
single (c ∷ s) = (c, c) ∷ single s

-- The characters of the text, each by itself.
unfoldable pub chars : String → Spans
unfolding str single
chars s = single (str s)
