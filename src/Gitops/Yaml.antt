-- ===== src/Gitops/Yaml.antt =====
-- The YAML reader of daemon/internal/gitops/state.go: lines, nodes, and the two parsers that call each
-- other. The lines from the position of the parser on are an argument, and what is left of them is
-- returned. A nested block is no structural part of the lines, so each call takes a unit of fuel; one
-- unit more than there are lines is enough.
pub mod Result
pub mod Lines
pub mod Schema
pub mod Total
mod Examples
use d_plane_os.Prelude.{
  ℕ, zero, suc, ltb, Str, str, str_eq, Bool, true, false, not, ◌&&◌, ◌||◌, Option, some, none, List,
  [], ◌∷◌, ◌++◌, map, cut, trim_space, has_prefix, split, drop, length, byte_length, if◌then◌else◌,
}
use Result.{Parsed, ok, err, out_of_fuel, ◌>>=◌, YamlError, expected_key_value, invalid_sequence}
use Lines.{ParsedLine, inside, last_is, unquote}

-- yamlNode: a string, a map or a slice. A field that was set last stands first under its key.
mutual
  pub data Node : Type 0 where
    scalar : Str → Node
    mapping : Fields → Node
    sequence : Items → Node

  pub data Fields : Type 0 where
    no_fields : Fields
    field : Str → Node → Fields → Fields

  pub data Items : Type 0 where
    no_items : Items
    item : Node → Items → Items

-- m[key] = node
unfoldable pub put_field : Str → Node → Fields → Fields
unfolding str_eq
put_field k v no_fields = field k v no_fields
put_field k v (field k' v' fs) =
    if str_eq k' k then field k v fs else field k' v' (put_field k v fs)

-- m[key], v, ok
unfoldable pub get_field : Str → Fields → Option Node
unfolding str_eq
get_field k no_fields = none
get_field k (field k' v fs) = if str_eq k' k then some v else get_field k fs

-- for k, v := range rest { m[k] = v }
unfoldable pub merge_fields : Fields → Fields → Fields
unfolding put_field
merge_fields no_fields into = into
merge_fields (field k v fs) into = merge_fields fs (put_field k v into)

-- append(items, node)
unfoldable pub append_item : Items → Node → Items
append_item no_items n = item n no_items
append_item (item m ms) n = item m (append_item ms n)

inline_items : List Str → Items
unfolding unquote str_eq
inline_items [] = no_items
inline_items (p ∷ ps) =
    if str_eq (trim_space p) []
    then inline_items ps
    else item (scalar (unquote (trim_space p))) (inline_items ps)

-- The error takes the line's number from the caller.
unfoldable pub parse_inline_sequence : ℕ → Str → Parsed Node
unfolding inline_items inside last_is has_prefix
parse_inline_sequence n s =
    let t = trim_space s in
    if not (has_prefix (b'[' ∷ []) t) || not (last_is b']' t)
    then err (invalid_sequence n t)
    else ok (sequence (inline_items (split b',' (inside t))))

abbrev pub Lines : Type 0
Lines = List ParsedLine

abbrev pub Parser : Type 0 → Type 0
Parser A = Lines → Parsed (A × Lines)

-- A line of a sequence.
unfoldable pub is_dash : ParsedLine → Bool
unfolding has_prefix str_eq
is_dash l = has_prefix (b'-' ∷ b' ' ∷ []) l.content || str_eq l.content (b'-' ∷ [])

-- The text after the dash.
unfoldable pub item_content : ParsedLine → Str
unfolding byte_length
item_content l = if ltb 2 (byte_length l.content) then trim_space (drop 2 l.content) else []

-- What stands on the lines after `line`: a block if the next one is deeper, "" otherwise.
block_or_empty : (ℕ → Parser Fields) → (ℕ → Parser Items) → ParsedLine → Parser Node
unfolding is_dash
block_or_empty maps seqs line [] = ok (scalar [], [])
block_or_empty maps seqs line (next ∷ ls) =
    if not (ltb line.indent next.indent)
    then ok (scalar [], next ∷ ls)
    else if is_dash next
    then seqs next.indent (next ∷ ls) >>= (λ (items, rest). ok (sequence items, rest))
    else maps next.indent (next ∷ ls) >>= (λ (fs, rest). ok (mapping fs, rest))

-- The value after the colon of `line`.
value_of : (ℕ → Parser Fields) → (ℕ → Parser Items) → ParsedLine → Str → Parser Node
unfolding block_or_empty parse_inline_sequence
value_of maps seqs line v ls =
    if str_eq v []
    then block_or_empty maps seqs line ls
    else if has_prefix (b'[' ∷ []) v
    then parse_inline_sequence line.line_num v >>= (λ n. ok (n, ls))
    else ok (scalar (unquote v), ls)

-- The fields on the deeper lines after `line`, if there are any.
deeper : (ℕ → Parser Fields) → ParsedLine → Parser (Option Fields)
deeper maps line [] = ok (none, [])
deeper maps line (next ∷ ls) =
    if ltb line.indent next.indent
    then maps next.indent (next ∷ ls) >>= (λ (fs, rest). ok (some fs, rest))
    else ok (none, next ∷ ls)

fields_or_empty : Option Fields → Node
fields_or_empty none = scalar []
fields_or_empty (some fs) = mapping fs

-- The item that begins with a key, and the fields on the deeper lines.
keyed_item : Str → Str → Option Fields → Node
unfolding merge_fields
keyed_item k v none = mapping (field k (scalar (unquote v)) no_fields)
keyed_item k v (some fs) = mapping (merge_fields fs (field k (scalar (unquote v)) no_fields))

-- One item, from the text after its dash.
item_of : (ℕ → Parser Fields) → ParsedLine → Str → Parser Node
unfolding deeper fields_or_empty keyed_item
item_of maps line content ls =
    if str_eq content []
    then deeper maps line ls >>= (λ (o, rest). ok (fields_or_empty o, rest))
    else elim (cut (b':' ∷ []) content) [
      | none ↦ ok (scalar (unquote content), ls)
      | some (k, v) ↦
          deeper maps line ls
          >>= (λ (o, rest). ok (keyed_item (trim_space k) (trim_space v) o, rest))
    ]

-- The loops of parseMapping and parseSequence: `fs` and `items` are the results so far.
unfoldable mutual
  unfolding value_of item_of is_dash item_content

  pub parse_mapping : ℕ → ℕ → Fields → Parser Fields
  parse_mapping zero min fs ls = out_of_fuel
  parse_mapping (suc f) min fs [] = ok (fs, [])
  parse_mapping (suc f) min fs (line ∷ ls) = elim (ltb line.indent min) [
    | true ↦ ok (fs, line ∷ ls)
    | false ↦ elim (cut (b':' ∷ []) line.content) [
      | none ↦ err (expected_key_value line.line_num line.content)
      | some (k, v) ↦
          value_of (λ m. parse_mapping f m no_fields) (λ m. parse_sequence f m no_items) line
            (trim_space v) ls
          >>= λ (n, rest). parse_mapping f min (put_field (trim_space k) n fs) rest
    ]
  ]

  pub parse_sequence : ℕ → ℕ → Items → Parser Items
  parse_sequence zero min items ls = out_of_fuel
  parse_sequence (suc f) min items [] = ok (items, [])
  parse_sequence (suc f) min items (line ∷ ls) = elim (ltb line.indent min || not (is_dash line)) [
    | true ↦ ok (items, line ∷ ls)
    | false ↦
        item_of (λ m. parse_mapping f m no_fields) line (item_content line) ls >>= λ (n, rest).
        parse_sequence f min (append_item items n) rest
  ]

-- parseDocument: what the mapping leaves of the lines is not looked at.
unfoldable pub parse_document : Lines → Parsed Fields
unfolding parse_mapping
parse_document ls = parse_mapping (suc (length ls)) 0 no_fields ls >>= λ (fs, rest). ok fs
