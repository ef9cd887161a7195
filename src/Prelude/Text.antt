-- ===== src/Prelude/Text.antt =====
-- Go strings as lists of code points, with the functions of package strings that the source uses.
pub mod Laws
pub mod Cut
pub mod Split
use Prim.Native.Nat.{ℕ, zero, suc, ◌/◌, ◌%◌, ◌+◌, ◌-◌, ◌*◌, ◌^◌}
use Prim.Native.Char.{code}
use Prim.Native.String.{String}
use mathlib.Core.Bool.{Bool, true, false, not, ◌&&◌, ◌||◌}
use mathlib.Core.Option.{Option, none, some}
use mathlib.Core.Option
use mathlib.Core.List.{List, [], ◌∷◌, ◌++◌, reverse}
use d_plane_os.Prelude.Tests.{leb, ltb, ◌==◌, if◌then◌else◌}
use d_plane_os.Prelude.Lists.{length, drop}

-- A valid UTF-8 text by its code points.
abbrev pub Str : Type 0
Str = List ℕ

unfoldable pub str : String → Str
str String.[] = []
str (String.◌∷◌ c s) = code c ∷ str s

-- a == b
unfoldable pub str_eq : Str → Str → Bool
str_eq [] [] = true
str_eq (c ∷ s) (d ∷ t) = (c == d) && str_eq s t
str_eq _ _ = false

-- a < b
unfoldable pub str_lt : Str → Str → Bool
str_lt [] [] = false
str_lt [] (d ∷ t) = true
str_lt (c ∷ s) [] = false
str_lt (c ∷ s) (d ∷ t) = ltb c d || ((c == d) && str_lt s t)

-- Whether a slice or a set literal holds the string.
unfoldable pub member : Str → List Str → Bool
unfolding str_eq
member s [] = false
member s (t ∷ ts) = str_eq s t || member s ts

-- strings.HasPrefix(s, p), with the prefix first
unfoldable pub has_prefix : Str → Str → Bool
has_prefix [] s = true
has_prefix (c ∷ p) [] = false
has_prefix (c ∷ p) (d ∷ s) = (c == d) && has_prefix p s

-- strings.Contains(s, p), with the part first
unfoldable pub contains : Str → Str → Bool
unfolding has_prefix
contains p [] = has_prefix p []
contains p (d ∷ s) = has_prefix p (d ∷ s) || contains p s

-- strings.Index(s, p) with the two slices around the occurrence: what precedes and what follows it.
unfoldable pub cut : Str → Str → Option (Str × Str)
unfolding has_prefix
cut p [] = if has_prefix p [] then some ([], []) else none
cut p (d ∷ s) =
    if has_prefix p (d ∷ s)
    then some ([], drop (length p) (d ∷ s))
    else Option.map (λ (r : Str × Str). (d ∷ r.0, r.1)) (cut p s)

-- strings.Split(s, sep) for a separator of one character; it always has a part.
unfoldable pub split : ℕ → Str → List Str
split sep [] = [] ∷ []
split sep (c ∷ s) = elim (split sep s) [
  | [] ↦ (c ∷ []) ∷ []
  | part ∷ parts ↦ if c == sep then [] ∷ part ∷ parts else (c ∷ part) ∷ parts
]

-- unicode.IsSpace
unfoldable pub is_space : ℕ → Bool
is_space c =
    (leb 9 c && leb c 13)
    || (c == 32)
    || (c == 0x85)
    || (c == 0xa0)
    || (c == 0x1680)
    || (leb 0x2000 c && leb c 0x200a)
    || (c == 0x2028)
    || (c == 0x2029)
    || (c == 0x202f)
    || (c == 0x205f)
    || (c == 0x3000)

unfoldable pub trim_left : Str → Str
unfolding is_space
trim_left [] = []
trim_left (c ∷ s) = let rest = trim_left s in if is_space c then rest else c ∷ s

-- strings.TrimSpace
unfoldable pub trim_space : Str → Str
unfolding trim_left
trim_space s = reverse (trim_left (reverse (trim_left s)))

-- Puts a character in front of the first word, where a word is under way.
add_char : ℕ → Bool × List Str → Bool × List Str
add_char c (true, w ∷ ws) = (true, (c ∷ w) ∷ ws)
add_char c (_, ws) = (true, (c ∷ []) ∷ ws)

words : Str → Bool × List Str
unfolding is_space add_char
words [] = (false, [])
words (c ∷ s) = let r = words s in if is_space c then (false, r.1) else add_char c r

-- strings.Fields: the maximal runs without white space
unfoldable pub fields : Str → List Str
unfolding words
fields s = (words s).1

-- strings.Join(parts, sep)
unfoldable pub join : Str → List Str → Str
join sep [] = []
join sep (p ∷ []) = p
join sep (p ∷ q ∷ ps) = p ++ (sep ++ join sep (q ∷ ps))

unfoldable pub max_uint64 : ℕ
max_uint64 = 2 ^ 64 - 1

unfoldable pub is_digit : ℕ → Bool
is_digit c = leb b'0' c && leb c b'9'

-- The loop of strconv.ParseUint(s, 10, 64), whose value the source takes without its error: 0 on
-- a character that is no digit, the largest value once the number does not fit.
unfoldable pub parse_digits : ℕ → Str → ℕ
unfolding is_digit max_uint64
parse_digits n [] = n
parse_digits n (c ∷ s) =
    let rest = parse_digits (n * 10 + (c - b'0')) s in
    if not (is_digit c)
    then 0
    else if ltb max_uint64 (n * 10 + (c - b'0'))
    then max_uint64
    else rest

unfoldable pub parse_uint : Str → ℕ
unfolding parse_digits
parse_uint s = parse_digits 0 s

-- Every code point passes the test.
unfoldable pub all_chars : (ℕ → Bool) → Str → Bool
all_chars p [] = true
all_chars p (c ∷ s) = p c && all_chars p s

-- strings.ContainsAny(s, chars)
unfoldable pub contains_any : Str → Str → Bool
contains_any chars [] = false
contains_any chars (c ∷ s) = not (all_chars (λ d. not (c == d)) chars) || contains_any chars s

-- The decimal digits of a number in front of `out`, on fuel that is at least the number.
decimal_digits : ℕ → ℕ → Str → Str
decimal_digits zero n out = (b'0' + n) ∷ out
decimal_digits (suc f) n out =
    let rest = decimal_digits f (n / 10) ((b'0' + n % 10) ∷ out) in
    if ltb n 10 then (b'0' + n) ∷ out else rest

-- "%d" of a number that is not negative
unfoldable pub decimal : ℕ → Str
unfolding decimal_digits
decimal n = decimal_digits n n []

-- len(s): the bytes of the UTF-8 encoding.
char_bytes : ℕ → ℕ
char_bytes c = if ltb c 0x80 then 1 else if ltb c 0x800 then 2 else if ltb c 0x10000 then 3 else 4

unfoldable pub byte_length : Str → ℕ
unfolding char_bytes
byte_length [] = 0
byte_length (c ∷ s) = char_bytes c + byte_length s
