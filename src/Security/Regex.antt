-- ===== src/Security/Regex.antt =====
-- Regular expressions as the source writes them, and a matcher for the whole text. A pattern of the
-- source that is anchored by `^` and `$` is its body here; `$` of package regexp stands for the end
-- of the text.
pub mod Lang
pub mod Avoids
use d_plane_os.Prelude.{
  ℕ, zero, suc, leb, Str, Bool, true, false, ◌&&◌, ◌||◌, List, [], ◌∷◌, if◌then◌else◌,
}

-- The ranges of a bracket expression.
abbrev pub Spans : Type 0
Spans = List (ℕ × ℕ)

unfoldable pub in_spans : Spans → ℕ → Bool
in_spans [] c = false
in_spans ((lo, hi) ∷ spans) c = (leb lo c && leb c hi) || in_spans spans c

pub data Regex : Type 0 where
  void empty : Regex
  set : Spans → Regex
  seq alt : Regex → Regex → Regex
  star : Regex → Regex

infixr 30 ◌<>◌
infixr 20 ◌<|>◌
abbrev pub ◌<>◌ : Regex → Regex → Regex
r <> s = seq r s

abbrev pub ◌<|>◌ : Regex → Regex → Regex
r <|> s = alt r s

-- r+, r?
abbrev pub plus : Regex → Regex
plus r = seq r (star r)

abbrev pub opt : Regex → Regex
opt r = alt r empty

-- r{0,n}
abbrev pub up_to : ℕ → Regex → Regex
up_to zero r = empty
up_to (suc n) r = alt (seq r (up_to n r)) empty

-- r{n,n+k}
abbrev pub between : ℕ → ℕ → Regex → Regex
between zero k r = up_to k r
between (suc n) k r = seq r (between n k r)

-- A text that stands for itself.
abbrev pub lit : Str → Regex
lit [] = empty
lit (c ∷ s) = seq (set ((c, c) ∷ [])) (lit s)

unfoldable pub nullable : Regex → Bool
nullable void = false
nullable empty = true
nullable (set spans) = false
nullable (seq r s) = nullable r && nullable s
nullable (alt r s) = nullable r || nullable s
nullable (star r) = true

-- What must follow after the first character `c`.
unfoldable pub after_char : ℕ → Regex → Regex
unfolding nullable in_spans
after_char c void = void
after_char c empty = void
after_char c (set spans) = if in_spans spans c then empty else void
after_char c (seq r s) =
    if nullable r then alt (seq (after_char c r) s) (after_char c s) else seq (after_char c r) s
after_char c (alt r s) = alt (after_char c r) (after_char c s)
after_char c (star r) = seq (after_char c r) (star r)

-- MatchString for a pattern that is anchored at both ends
unfoldable pub full_match : Regex → Str → Bool
unfolding nullable after_char
full_match r [] = nullable r
full_match r (c ∷ s) = full_match (after_char c r) s
