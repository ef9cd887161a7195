-- ===== src/Gitops/Yaml/Total.antt =====
-- The reader always ends within its fuel.
use d_plane_os.Prelude.{
  ℕ, zero, suc, ◌≤◌, ◌<◌, ltb, arith, ◌≢◌, inl, inr, Str, str_eq, not, ◌||◌, [], ◌∷◌, cut,
  has_prefix, trim_space, length, Bool-cases, Option-cases, if◌then◌else◌,
}
use d_plane_os.Gitops.Yaml.Result.{
  ok, out_of_fuel, ◌>>=◌, Ends, Ends-bind, Ends-weaken, Ends-ne_out_of_fuel,
}
use d_plane_os.Gitops.Yaml.Lines.{ParsedLine}
use d_plane_os.Gitops.Yaml.{
  Node, Fields, Items, no_fields, no_items, put_field, append_item, Lines, Parser,
  parse_inline_sequence, is_dash, item_content, block_or_empty, value_of, deeper, item_of,
  parse_mapping, parse_sequence, parse_document,
}

-- A parser ends on every input of fewer lines than `f`, and leaves no more lines than it was given.
abbrev Within : {A : Type 0} → ℕ → (A × Lines) → Type 0
Within n r = length r.1 ≤ n

abbrev EndsBelow : {A : Type 0} → ℕ → (ℕ → Parser A) → Type 0
EndsBelow f p = (m : ℕ) (ls : Lines) → length ls < f → Ends (Within (length ls)) (p m ls)

parse_inline_sequence-Ends :
    (n : ℕ) (v : Str) (ls : Lines)
    → Ends (Within (length ls)) (parse_inline_sequence n v >>= (λ x. ok (x, ls)))
unfolding parse_inline_sequence
parse_inline_sequence-Ends n v ls = ground arith

module _ (f : ℕ) (maps : ℕ → Parser Fields) (below : EndsBelow f maps) where
  deeper-Ends :
      (line : ParsedLine) (ls : Lines)
      → length ls < f
      → Ends (Within (length ls)) (deeper maps line ls)
  unfolding deeper
  deeper-Ends line [] h = omega arith
  deeper-Ends line (next ∷ ls) h = elim (Bool-cases (ltb line.indent next.indent)) [
    | inl e ↦
        rw (e, if◌then◌else◌)
          (Ends-bind _ _ (maps next.indent (next ∷ ls)) _ (below next.indent (next ∷ ls) h)
            (λ a k. k))
    | inr e ↦ rw (e, if◌then◌else◌) (omega arith)
  ]

  item_of-Ends :
      (line : ParsedLine) (content : Str) (ls : Lines)
      → length ls < f
      → Ends (Within (length ls)) (item_of maps line content ls)
  unfolding item_of
  item_of-Ends line content ls h =
      let d = deeper-Ends line ls h in
      elim (Bool-cases (str_eq content [])) [
        | inl e ↦ rw (e, if◌then◌else◌) (Ends-bind _ _ (deeper maps line ls) _ d (λ a k. k))
        | inr e ↦ elim (Option-cases (cut (b':' ∷ []) content)) [
          | inl q ↦ rw (e, q, if◌then◌else◌) (omega arith)
          | inr (kv, q) ↦
              rw (e, q, if◌then◌else◌) (Ends-bind _ _ (deeper maps line ls) _ d (λ a k. k))
        ]
      ]

  module _ (seqs : ℕ → Parser Items) (below_seqs : EndsBelow f seqs) where
    block_or_empty-Ends :
        (line : ParsedLine) (ls : Lines)
        → length ls < f
        → Ends (Within (length ls)) (block_or_empty maps seqs line ls)
    unfolding block_or_empty
    block_or_empty-Ends line [] h = omega arith
    block_or_empty-Ends line (next ∷ ls) h =
        let m =
          Ends-bind _ (Within (length (next ∷ ls))) (maps next.indent (next ∷ ls))
            (λ (r : Fields × Lines). ok (Node.mapping r.0, r.1)) (below next.indent (next ∷ ls) h)
            (λ a k. k) in
        let s =
          Ends-bind _ (Within (length (next ∷ ls))) (seqs next.indent (next ∷ ls))
            (λ (r : Items × Lines). ok (Node.sequence r.0, r.1))
            (below_seqs next.indent (next ∷ ls) h) (λ a k. k) in
        elim (Bool-cases (ltb line.indent next.indent)) [
          | inr e ↦ rw (e, not, if◌then◌else◌) (omega arith)
          | inl e ↦ elim (Bool-cases (is_dash next)) [
            | inl d ↦ rw (e, d, not, if◌then◌else◌) s
            | inr d ↦ rw (e, d, not, if◌then◌else◌) m
          ]
        ]

    value_of-Ends :
        (line : ParsedLine) (v : Str) (ls : Lines)
        → length ls < f
        → Ends (Within (length ls)) (value_of maps seqs line v ls)
    unfolding value_of
    value_of-Ends line v ls h = elim (Bool-cases (str_eq v [])) [
      | inl e ↦ rw (e, if◌then◌else◌) (block_or_empty-Ends line ls h)
      | inr e ↦ elim (Bool-cases (has_prefix (b'[' ∷ []) v)) [
        | inl b ↦ rw (e, b, if◌then◌else◌) (parse_inline_sequence-Ends line.line_num v ls)
        | inr b ↦ rw (e, b, if◌then◌else◌) (omega arith)
      ]
    ]

mutual
  unfolding parse_mapping

  parse_mapping-Ends :
      (f min : ℕ) (fs : Fields) (ls : Lines)
      → length ls < f
      → Ends (Within (length ls)) (parse_mapping f min fs ls)
  parse_mapping-Ends zero min fs ls h = absurd (omega arith)
  parse_mapping-Ends (suc f) min fs [] h = omega arith
  parse_mapping-Ends (suc f) min fs (line ∷ ls) h = elim (Bool-cases (ltb line.indent min)) [
    | inl e ↦ rw (Ends, e) (omega arith)
    | inr e ↦ elim (Option-cases (cut (b':' ∷ []) line.content)) [
      | inl q ↦ rw (Ends, e, q) tt
      | inr ((k, v), q) ↦
          rw (Ends, e, q)
            (Ends-bind (Within (length ls)) (Within (suc (length ls))) _ _
              (value_of-Ends f (λ m. parse_mapping f m no_fields)
                (λ m ls'. parse_mapping-Ends f m no_fields ls') (λ m. parse_sequence f m no_items)
                (λ m ls'. parse_sequence-Ends f m no_items ls') line (trim_space v) ls
                (omega arith))
              (λ (n, rest) k'.
                Ends-weaken (Within (length rest)) (Within (suc (length ls)))
                  (parse_mapping f min (put_field (trim_space k) n fs) rest)
                  (parse_mapping-Ends f min (put_field (trim_space k) n fs) rest (omega arith))
                  (λ a h'. omega arith)))
    ]
  ]

  parse_sequence-Ends :
      (f min : ℕ) (items : Items) (ls : Lines)
      → length ls < f
      → Ends (Within (length ls)) (parse_sequence f min items ls)
  parse_sequence-Ends zero min items ls h = absurd (omega arith)
  parse_sequence-Ends (suc f) min items [] h = omega arith
  parse_sequence-Ends (suc f) min items (line ∷ ls) h =
      elim (Bool-cases (ltb line.indent min || not (is_dash line))) [
        | inl e ↦ rw (Ends, e) (omega arith)
        | inr e ↦
            rw (Ends, e)
              (Ends-bind (Within (length ls)) (Within (suc (length ls))) _ _
                (item_of-Ends f (λ m. parse_mapping f m no_fields)
                  (λ m ls'. parse_mapping-Ends f m no_fields ls') line (item_content line) ls
                  (omega arith))
                (λ (n, rest) k'.
                  Ends-weaken (Within (length rest)) (Within (suc (length ls)))
                    (parse_sequence f min (append_item items n) rest)
                    (parse_sequence-Ends f min (append_item items n) rest (omega arith))
                    (λ a h'. omega arith)))
      ]

-- Whatever the lines are, the parser of documents ends: its fuel, one more than the number of lines,
-- is enough for every nesting of blocks.
pub parse_document-ne_out_of_fuel : (ls : Lines) → parse_document ls ≢ out_of_fuel
unfolding parse_document
parse_document-ne_out_of_fuel ls =
    Ends-ne_out_of_fuel (λ fs. Unit) (parse_document ls)
      (Ends-bind (Within (length ls)) (λ fs. Unit) (parse_mapping (suc (length ls)) 0 no_fields ls)
        _ (parse_mapping-Ends (suc (length ls)) 0 no_fields ls (omega arith)) (λ a k. tt))
