-- ===== src/Gitops/Yaml/Lines/Truncated.antt =====
-- What splitLines gives for a text with an overlong line: it does not look at scanner.Err().
use mathlib.Core.List.{append-nil, append_assoc}
use d_plane_os.Prelude.{
  arith, ◌≡◌, ◌⊎◌, refl, ap, ◌≤◌, leb, Str, true, List, [], ◌∷◌, ◌++◌, In, split, split-append,
  split_whole, inl, inr, byte_length, if◌then◌else◌,
}
use d_plane_os.Gitops.Yaml.Lines.{max_scan_token, scan_line, scanned, split_lines}

overlong :
    (long : Str) (rest : List Str) → max_scan_token ≤ byte_length long → scan_line long rest ≡ []
unfolding scan_line
overlong long rest h =
    let stops : leb max_scan_token (byte_length long) ≡ true = ground arith in
    rw (stops, if◌then◌else◌) refl

-- The lines that stand in front of an overlong one are all that is read.
scanned_overlong :
    (ls : List Str) (long : Str) (after : List Str)
    → max_scan_token ≤ byte_length long
    → scanned (ls ++ (long ∷ after)) ≡ scanned (ls ++ ([] ∷ []))
unfolding scanned
scanned_overlong [] [] [] h = refl
scanned_overlong [] [] (a ∷ after) h = overlong [] (scanned (a ∷ after)) h
scanned_overlong [] (c ∷ long) [] h = overlong (c ∷ long) [] h
scanned_overlong [] (c ∷ long) (a ∷ after) h = overlong (c ∷ long) (scanned (a ∷ after)) h
scanned_overlong (l ∷ []) long after h = ap (scan_line l) (scanned_overlong [] long after h)
scanned_overlong (l ∷ k ∷ ls) long after h =
    ap (scan_line l) (scanned_overlong (k ∷ ls) long after h)

-- The text in front of a line: nothing, or whole lines.
abbrev pub EndsLine : Str → Type 0
EndsLine s = (s ≡ []) ⊎ ((t : Str) × (s ≡ t ++ (10 ∷ [])))

-- The text behind a line: nothing, or a line end and more.
abbrev pub BeginsAfterLine : Str → Type 0
BeginsAfterLine s = (s ≡ []) ⊎ ((t : Str) × (s ≡ 10 ∷ t))

-- The parts of a text that begins with such a line.
split-overlong :
    (long after : Str)
    → ¬ In 10 long
    → BeginsAfterLine after
    → (ls : List Str) × (split 10 (long ++ after) ≡ long ∷ ls)
unfolding split
split-overlong long after h (inl e) = ([], rw (e, append-nil {0} long, split_whole 10 long h) refl)
split-overlong long after h (inr (t, e)) =
    (split 10 t, rw (e, split-append 10 long t, split_whole 10 long h) refl)

-- A line of 65536 bytes or more, be it the first, the last or between others, is dropped with everything
-- behind it and no error: the lines are those of the text in front of it.
pub split_lines_overlong :
    (before long after : Str)
    → EndsLine before
    → ¬ In 10 long
    → max_scan_token ≤ byte_length long
    → BeginsAfterLine after
    → split_lines (before ++ (long ++ after)) ≡ split_lines before
unfolding split_lines split
split_lines_overlong before long after (inl e) h k behind =
    let (ls, parts) = split-overlong long after h behind in
    rw (e, parts, scanned_overlong [] long ls k) refl
split_lines_overlong before long after (inr (t, e)) h k behind =
    let (ls, parts) = split-overlong long after h behind in
    rw
      (
        e,
        append_assoc t (10 ∷ []) (long ++ after),
        split-append 10 t (long ++ after),
        split-append 10 t [],
        parts,
        scanned_overlong (split 10 t) long ls k,
      )
      refl
