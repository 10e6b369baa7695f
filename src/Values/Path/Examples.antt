-- ===== src/Values/Path/Examples.antt =====
-- The theorems on pkg/helmvalues/values.go at inputs that meet their hypotheses, and tests.
use cargoship.Prelude.{ℕ, String, ◌≡◌, refl, true, some, List, [], ◌∷◌, map, Bytes, codes, arith}
use cargoship.Values.Text.{split_escaped, unescape, split_key_indices, cut, atoi}
use cargoship.Values.Tree.{
  Value, text, mapping, items, any_keyed, plain, Entries, end, entry, nil, cons, null, PathSegment,
  fail, index_too_large, ok, lookup, assign, get_segments, get_indices, set_segments, set_indices,
  writable_map, writable_list, item_at, grow, replace, as_map,
}
use cargoship.Values.Path.{
  value_path, parse_path, bracketed, checked_index, set_value_path, get_value_path, apply_mapping,
}
use cargoship.Values.Path.Printing.{key_only, print, value_path-print}
use cargoship.Values.Path.Access.{get-set_value_path}

abbrev leaf : String → Value
leaf s = text (codes s)

abbrev name : List ℕ → Bytes → PathSegment
name is k = record { key = k; indices = is }

-- `.servers[1].port`.
abbrev port : List PathSegment
port = name (1 ∷ []) (codes "servers") ∷ name [] (codes "port") ∷ []

abbrev written : Entries
written =
    entry (codes "servers")
      (items (cons null (cons (mapping plain (entry (codes "port") (leaf "80") end)) nil))) end

parses : value_path (codes ".servers[1].port") ≡ ok port
unfolding value_path parse_path split_escaped unescape split_key_indices cut atoi bracketed
    checked_index
parses = refl

too_large : value_path (codes ".a[64]") ≡ fail index_too_large
unfolding value_path parse_path split_escaped unescape split_key_indices cut atoi bracketed
    checked_index
too_large = refl

writes : set_value_path end (codes ".servers[1].port") (leaf "80") ≡ ok written
unfolding set_value_path value_path parse_path split_escaped unescape split_key_indices cut atoi
    bracketed checked_index set_segments set_indices writable_map writable_list lookup assign
    item_at grow replace as_map
writes = refl

value_path-print_example :
    value_path (print (codes "a.b" ∷ codes "c[0]" ∷ []))
    ≡ ok (map key_only (codes "a.b" ∷ codes "c[0]" ∷ []))
value_path-print_example =
    value_path-print (codes "a.b") (codes "c[0]" ∷ []) (ground arith, (ground arith, tt))

get-set_value_path_example :
    get_value_path written (codes ".servers[1].port") ≡ ok (some (leaf "80"))
get-set_value_path_example =
    get-set_value_path end written (codes ".servers[1].port") (name (1 ∷ []) (codes "servers"))
      (name [] (codes "port") ∷ []) (leaf "80") parses writes

maps :
    apply_mapping end (entry (codes "b") (leaf "80") end) (codes ".b") (codes ".servers[1].port")
    ≡ ok (true, written)
unfolding apply_mapping get_value_path get_segments get_indices set_value_path value_path parse_path
    split_escaped unescape split_key_indices cut atoi bracketed checked_index set_segments
    set_indices writable_map writable_list lookup assign item_at grow replace as_map
maps = refl

-- `a: {x: 1}` as a YAML decoder gives it, over `a: {y: 2}`.
abbrev upper : Entries
upper = entry (codes "a") (mapping any_keyed (entry (codes "x") (leaf "1") end)) end

abbrev lower : Entries
lower = entry (codes "a") (mapping plain (entry (codes "y") (leaf "2") end)) end

abbrev at : String → List PathSegment
at k = name [] (codes "a") ∷ name [] (codes k) ∷ []
