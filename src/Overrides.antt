-- ===== src/Overrides.antt =====
-- pkg/fileoverride/fileoverride.go: the redirections of file sources. A text is the list of its
-- bytes, taken to be ASCII where letters are folded.
pub mod Choice
pub mod Local
mod Examples
use cargoship.Prelude.{
  ℕ, ◌+◌, Bool, true, false, not, ◌&&◌, ◌||◌, ◌⊎◌, inl, inr, Option, none, some, List, [], ◌∷◌,
  ◌++◌, any, Bytes, codes, ltb, leb, ◌==◌, if◌then◌else◌,
}

-- What `url.Parse` finds in a text.
pub record Url : Type 0 where
  pub scheme : Bytes
  pub host : Bytes
  pub path : Bytes
  pub raw_query : Bytes
  pub fragment : Bytes

-- `url.Parse`, and `filepath.Abs`, which asks for the working directory.
pub record Paths : Type 0 where
  pub url : Bytes → Option Url
  pub abs : Bytes → Option Bytes

-- `local_dir` is empty where the target is a URL.
pub record Override : Type 0 where
  pub source : Bytes
  pub target : Bytes
  pub local_dir : Bytes

pub data OverrideError : Type 0 where
  missing_equals missing_source missing_value duplicate_source : OverrideError
  source_not_url target_not_path target_unresolved : OverrideError

abbrev is_nothing : Bytes → Bool
is_nothing [] = true
is_nothing (c ∷ s) = false

pub same : Bytes → Bytes → Bool
same [] [] = true
same [] (d ∷ t) = false
same (c ∷ s) [] = false
same (c ∷ s) (d ∷ t) = (c == d) && same s t

unfoldable pub has_prefix : Bytes → Bytes → Bool
has_prefix [] s = true
has_prefix (c ∷ p) [] = false
has_prefix (c ∷ p) (d ∷ s) = (c == d) && has_prefix p s

-- `strings.Compare(s, t) < 0`
unfoldable pub less : Bytes → Bytes → Bool
less [] [] = false
less [] (d ∷ t) = true
less (c ∷ s) [] = false
less (c ∷ s) (d ∷ t) =
    let rest = less s t in if ltb c d then true else if c == d then rest else false

fold_byte : ℕ → ℕ
fold_byte c = if leb 65 c && leb c 90 then c + 32 else c

-- `strings.EqualFold`
unfoldable pub equal_fold : Bytes → Bytes → Bool
unfolding fold_byte
equal_fold [] [] = true
equal_fold [] (d ∷ t) = false
equal_fold (c ∷ s) [] = false
equal_fold (c ∷ s) (d ∷ t) = (fold_byte c == fold_byte d) && equal_fold s t

-- A URL with a scheme that `parseHTTPURL` accepts, and a host.
is_http : Url → Bool
unfolding equal_fold
is_http u =
    (equal_fold u.scheme (codes "http") || equal_fold u.scheme (codes "https"))
    && not (is_nothing u.host)

if_http : Option Url → Option Url
unfolding is_http
if_http none = none
if_http (some u) = if is_http u then some u else none

pub parse_http_url : Paths → Bytes → Option Url
unfolding if_http
parse_http_url p s = if_http (p.url s)

-- `strings.Cut(mapping, "=")`
pub record Mapping : Type 0 where
  pub before : Bytes
  pub after : Bytes
  pub found : Bool

cut_more : ℕ → Mapping → Mapping
cut_more c m = record m { before = c ∷ m.before }

cut_equals : Bytes → Mapping
unfolding cut_more
cut_equals [] = record { before = []; after = []; found = false }
cut_equals (c ∷ s) =
    let rest = cut_more c (cut_equals s) in
    if c == 61 then record { before = []; after = s; found = true } else rest

-- A scheme of one letter is the drive of a Windows path.
abbrev has_long_scheme : Option Url → Bool
has_long_scheme none = false
has_long_scheme (some u) = long u.scheme
  where
    long : Bytes → Bool
    long [] = false
    long (c ∷ []) = false
    long (c ∷ (d ∷ s)) = true

local_override : Bytes → Bytes → Option Bytes → OverrideError ⊎ Override
local_override source target none = inl target_unresolved
local_override source target (some abs) =
    inr (record { source = source; target = target; local_dir = abs })

by_target : Paths → Bytes → Bytes → Option Url → OverrideError ⊎ Override
unfolding local_override
by_target p source target (some u) =
    inr (record { source = source; target = target; local_dir = [] })
by_target p source target none =
    if has_long_scheme (p.url target)
    then inl target_not_path
    else local_override source target (p.abs target)

by_source : Paths → Bytes → Bytes → Option Url → OverrideError ⊎ Override
unfolding by_target
by_source p source target none = inl source_not_url
by_source p source target (some u) = by_target p source target (parse_http_url p target)

-- One round of the loop of `Parse`.
parse_mapping : Paths → List Override → Mapping → OverrideError ⊎ Override
unfolding by_source
parse_mapping p result m =
    if not m.found
    then inl missing_equals
    else if is_nothing m.before
    then inl missing_source
    else if is_nothing m.after
    then inl missing_value
    else if any (λ o. same o.source m.before) result
    then inl duplicate_source
    else by_source p m.before m.after (parse_http_url p m.before)

-- `slices.SortFunc`, in descending order.
insert_override : Override → List Override → List Override
insert_override o [] = o ∷ []
insert_override o (x ∷ xs) =
    let rest = insert_override o xs in if less x.source o.source then o ∷ x ∷ xs else x ∷ rest

pub sort_overrides : List Override → List Override
unfolding insert_override
sort_overrides [] = []
sort_overrides (o ∷ os) = insert_override o (sort_overrides os)

parse_loop : Paths → List Override → List Bytes → OverrideError ⊎ List Override
unfolding parse_mapping cut_equals
parse_loop p result [] = inr (sort_overrides result)
parse_loop p result (mapping ∷ rest) = elim (parse_mapping p result (cut_equals mapping)) [
  | inl e ↦ inl e
  | inr o ↦ parse_loop p (result ++ o ∷ []) rest
]

pub parse : Paths → List Bytes → OverrideError ⊎ List Override
unfolding parse_loop
parse p overrides = parse_loop p [] overrides

-- `strings.TrimPrefix(s, "/")`
trim_slash : Bytes → Bytes
trim_slash [] = []
trim_slash (c ∷ s) = if c == 47 then s else c ∷ s

trim_front : Bytes → Bytes
trim_front [] = []
trim_front (c ∷ s) = let rest = trim_front s in if c == 47 then rest else c ∷ s

trim_back : Bytes → Bytes
trim_back [] = []
trim_back (c ∷ s) = elim (trim_back s) [ [] ↦ if c == 47 then [] else c ∷ [] | d ∷ t ↦ c ∷ (d ∷ t) ]

-- What is behind a prefix that the text has.
behind : Bytes → Bytes → Bytes
behind [] s = s
behind (c ∷ p) [] = []
behind (c ∷ p) (d ∷ s) = behind p s

on_boundary : Bytes → Option Bytes
on_boundary [] = some []
on_boundary (c ∷ s) = if c == 47 then some s else none

-- `matchRemainder`
pub match_remainder : Url → Url → Option Bytes
unfolding equal_fold trim_slash trim_front trim_back has_prefix behind on_boundary
match_remainder src source =
    let src_path = trim_slash src.path in
    let source_path = trim_back (trim_front source.path) in
    if not (equal_fold src.scheme source.scheme) || not (equal_fold src.host source.host)
    then none
    else if is_nothing source_path
    then some src_path
    else if not (has_prefix source_path src_path)
    then none
    else on_boundary (behind source_path src_path)

matched_by : Url → Option Url → Option Bytes
matched_by src none = none
matched_by src (some source) = match_remainder src source

-- What an override leaves of a source, where it applies.
pub remainder : Paths → Url → Override → Option Bytes
unfolding matched_by
remainder p src o = matched_by src (parse_http_url p o.source)

-- The loop of `Resolve`: the first override that applies.
first_match : Paths → Url → List Override → Option (Override × Bytes)
first_match p src [] = none
first_match p src (o ∷ os) = elim (remainder p src o) [
  | none ↦ first_match p src os
  | some r ↦ some (o, r)
]

match_by : Paths → List Override → Option Url → Option (Override × Bytes)
unfolding first_match
match_by p os none = none
match_by p os (some src) = first_match p src os

-- The override that `Resolve` takes, and the rest of the path that it puts behind the target.
pub resolve_match : Paths → List Override → Bytes → Option (Override × Bytes)
unfolding match_by
resolve_match p os src = match_by p os (parse_http_url p src)

-- `strings.TrimSuffix(target, "/")`
trim_last_slash : Bytes → Bytes
trim_last_slash [] = []
trim_last_slash (c ∷ []) = if c == 47 then [] else c ∷ []
trim_last_slash (c ∷ (d ∷ s)) = c ∷ trim_last_slash (d ∷ s)

abbrev behind_mark : ℕ → Bytes → Bytes
behind_mark mark [] = []
behind_mark mark (c ∷ s) = mark ∷ c ∷ s

-- Where an override to a URL sends a source.
pub resolved_url : Override → Bytes → Url → Bytes
unfolding trim_last_slash
resolved_url o rest src =
    trim_last_slash o.target
    ++ (behind_mark 47 rest ++ (behind_mark 63 src.raw_query ++ behind_mark 35 src.fragment))
