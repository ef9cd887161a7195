-- ===== src/Gitops/Yaml/Lines.antt =====
-- splitLines, countIndent, stripComment and unquote of daemon/internal/gitops/state.go.
pub mod Truncated
use d_plane_os.Prelude.{
  ℕ, zero, suc, ◌+◌, ltb, leb, ◌==◌, Str, str_eq, Bool, true, false, not, ◌&&◌, ◌||◌, List, [], ◌∷◌,
  ◌++◌, split, trim_space, byte_length, if◌then◌else◌,
}

pub record ParsedLine : Type 0 where
  pub indent : ℕ
  pub content : Str
  pub raw : Str
  pub line_num : ℕ

unfoldable pub count_indent : Str → ℕ
count_indent [] = 0
count_indent (c ∷ s) = if c == b' ' then suc (count_indent s) else 0

-- The loop with its two flags, in_single and in_double.
strip_from : Bool → Bool → Str → Str
strip_from q d [] = []
strip_from q d (c ∷ s) =
    let rest = strip_from (if c == 39 then not q else q) (if c == b'"' then not d else d) s in
    if (c == b'#') && not q && not d then [] else c ∷ rest

unfoldable pub strip_comment : Str → Str
unfolding strip_from
strip_comment s = strip_from false false s

-- s without its last character
unfoldable pub drop_end : Str → Str
drop_end [] = []
drop_end (c ∷ []) = []
drop_end (c ∷ d ∷ s) = c ∷ drop_end (d ∷ s)

unfoldable pub last_is : ℕ → Str → Bool
last_is q [] = false
last_is q (c ∷ []) = c == q
last_is q (c ∷ d ∷ s) = last_is q (d ∷ s)

-- A quote stands at both ends of a text of at least two characters.
quoted_by : ℕ → Str → Bool
unfolding last_is
quoted_by q [] = false
quoted_by q (c ∷ []) = false
quoted_by q (c ∷ d ∷ s) = (c == q) && last_is q (d ∷ s)

-- s[1 : len(s)-1]
unfoldable pub inside : Str → Str
unfolding drop_end
inside [] = []
inside (c ∷ s) = drop_end s

unfoldable pub unquote : Str → Str
unfolding quoted_by inside
unquote s = let t = trim_space s in if quoted_by b'"' t || quoted_by 39 t then inside t else t

-- bufio.ScanLines takes a carriage return off the end of a line.
drop_cr : Str → Str
unfolding last_is drop_end
drop_cr s = if last_is 13 s then drop_end s else s

-- bufio.Scanner reads no line of 65536 bytes or more and stops there; what it read before stands. The
-- empty text after the last line end is no line.
unfoldable pub max_scan_token : ℕ
max_scan_token = 65536

scan_line : Str → List Str → List Str
unfolding drop_cr byte_length max_scan_token
scan_line l rest = if leb max_scan_token (byte_length l) then [] else drop_cr l ∷ rest

unfoldable pub scanned : List Str → List Str
unfolding scan_line
scanned [] = []
scanned ([] ∷ []) = []
scanned ((c ∷ l) ∷ []) = scan_line (c ∷ l) []
scanned (l ∷ k ∷ ls) = scan_line l (scanned (k ∷ ls))

-- The body of the loop: nothing for a line that is blank without its comment.
lines_from : ℕ → List Str → List ParsedLine
unfolding count_indent strip_comment str_eq
lines_from n [] = []
lines_from n (raw ∷ ls) =
    let content = trim_space (strip_comment raw) in
    let rest = lines_from (suc n) ls in
    if str_eq content []
    then rest
    else record { indent = count_indent raw; content = content; raw = raw; line_num = n } ∷ rest

unfoldable pub split_lines : Str → List ParsedLine
unfolding scanned lines_from
split_lines s = lines_from 1 (scanned (split 10 s))
