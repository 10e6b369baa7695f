-- ===== src/Values/Path.antt =====
-- Parsing a path, and `SetValuePath`, `GetValuePath`, `ApplyMapping` of pkg/helmvalues/values.go.
-- An error stands without its text. A map that is written to is returned anew.
pub mod Bounds
pub mod Fuel
pub mod Printing
pub mod Access
mod Examples
use cargoship.Prelude.{
  ℕ, zero, suc, Bool, true, false, Option, none, some, List, [], ◌∷◌, ◌++◌, Bytes, length, ltb, leb,
  ◌==◌, if◌then◌else◌,
}
use cargoship.Values.Text.{
  dot, open_bracket, close_bracket, split_escaped, unescape, split_key_indices, cut, atoi,
}
use cargoship.Values.Tree.{
  Value, mapping, plain, Entries, end, PathSegment, PathError, no_dot, empty_key, expected_index,
  invalid_index, negative_index, index_too_large, root_not_a_map, Answer, ok, fail, on_ok, as_map,
  get_segments, set_segments, merge_into, normalize_value,
}

abbrev pub max_index : ℕ
max_index = 63

-- The tests on the number between two brackets.
checked_index : Option (Bool × ℕ) → Answer ℕ
checked_index none = fail invalid_index
checked_index (some (true, suc n)) = fail negative_index
checked_index (some (s, n)) = if ltb max_index n then fail index_too_large else ok n

-- The text between an opening bracket and the next closing one, and what is behind it.
bracketed : Bytes → Option (Bytes × Bytes)
bracketed [] = none
bracketed (c ∷ s) = if c == open_bracket then cut close_bracket s else none

-- The loop of `parseSegment`; a round needs one unit of fuel and takes two bytes or more.
pub indices_loop : ℕ → List ℕ → Bytes → Answer (List ℕ)
indices_loop fuel found [] = ok found
indices_loop zero found (c ∷ s) = fail expected_index
indices_loop (suc fuel) found (c ∷ s) = elim (bracketed (c ∷ s)) [
  | none ↦ fail expected_index
  | some (number, rest) ↦
      on_ok (checked_index (atoi number)) λ n. indices_loop fuel (found ++ n ∷ []) rest
]

segment_of : Bytes → Bytes → Answer PathSegment
unfolding indices_loop
segment_of [] rest = fail empty_key
segment_of (c ∷ key) rest =
    on_ok (indices_loop (length rest) [] rest) λ is. ok (record { key = c ∷ key; indices = is })

pub parse_segment : Bytes → Answer PathSegment
unfolding segment_of
parse_segment raw = let (key, rest) = split_key_indices raw in segment_of (unescape key) rest

parse_all : List Bytes → Answer (List PathSegment)
unfolding parse_segment
parse_all [] = ok []
parse_all (raw ∷ raws) =
    on_ok (parse_segment raw) λ seg. on_ok (parse_all raws) λ segs. ok (seg ∷ segs)

pub parse_path : Bytes → Answer (List PathSegment)
unfolding parse_all
parse_path path = parse_all (split_escaped path dot)

pub value_path : Bytes → Answer (List PathSegment)
value_path [] = fail no_dot
value_path (c ∷ []) = if c == dot then ok [] else fail no_dot
value_path (c ∷ (d ∷ path)) = if c == dot then parse_path (d ∷ path) else fail no_dot

-- Absence is `none`.
pub get_value_path : Entries → Bytes → Answer (Option Value)
get_value_path src path = on_ok (value_path path) λ segs. ok (get_segments segs (mapping plain src))

abbrev entries_of : Value → Entries
entries_of v = elim (as_map v) [ none ↦ end | some es ↦ es ]

set_at : Entries → List PathSegment → Value → Answer Entries
set_at dst [] val = elim (as_map (normalize_value val)) [
  | none ↦ fail root_not_a_map
  | some root ↦ ok (merge_into dst root)
]
set_at dst (seg ∷ segs) val =
    on_ok (set_segments val (seg ∷ segs) (mapping plain dst)) λ v. ok (entries_of v)

pub set_value_path : Entries → Bytes → Value → Answer Entries
unfolding set_at
set_value_path dst path val = on_ok (value_path path) λ segs. set_at dst segs val

-- What becomes of the target, and whether the values define the source.
apply_found : Entries → Bytes → Option Value → Answer (Bool × Entries)
apply_found dst target none = ok (false, dst)
apply_found dst target (some val) = on_ok (set_value_path dst target val) λ dst'. ok (true, dst')

pub apply_mapping : Entries → Entries → Bytes → Bytes → Answer (Bool × Entries)
unfolding apply_found
apply_mapping dst values source target =
    on_ok (get_value_path values source) λ found. apply_found dst target found
