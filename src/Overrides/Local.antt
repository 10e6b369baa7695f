-- ===== src/Overrides/Local.antt =====
-- Where `Resolve` of pkg/fileoverride/fileoverride.go sends a source of an override to a directory.
-- A rooted path is the list of its elements; `filepath` is that of a system with slashes.
pub mod Inside
use cargoship.Prelude.{
  ℕ, Bool, true, false, Option, none, some, List, [], ◌∷◌, ◌++◌, map, Bytes, ◌==◌, ◌||◌,
  if◌then◌else◌,
}
use cargoship.Overrides.{Override, same}

abbrev pub dots : Bytes
dots = 46 ∷ 46 ∷ []

-- A text, cut at each slash; `cur` is the element that is being read.
elements_loop : Bytes → Bytes → List Bytes
elements_loop cur [] = cur ∷ []
elements_loop cur (c ∷ s) =
    let next = elements_loop [] s in
    let more = elements_loop (cur ++ c ∷ []) s in if c == 47 then cur ∷ next else more

elements : Bytes → List Bytes
unfolding elements_loop
elements s = elements_loop [] s

drop_last : List Bytes → List Bytes
drop_last [] = []
drop_last (s ∷ []) = []
drop_last (s ∷ (t ∷ r)) = s ∷ drop_last (t ∷ r)

-- An element that stands for no step: empty, or a single dot.
abbrev is_still : Bytes → Bool
is_still s = same s [] || same s (46 ∷ [])

-- `filepath.Clean` of a rooted path, behind the elements that are clean.
clean_loop : List Bytes → List Bytes → List Bytes
unfolding drop_last
clean_loop done [] = done
clean_loop done (s ∷ rest) =
    let stay = clean_loop done rest in
    let up = clean_loop (drop_last done) rest in
    let down = clean_loop (done ++ s ∷ []) rest in
    if is_still s then stay else if same s dots then up else down

-- `filepath.Abs` gave a rooted path.
unfoldable pub directory : Override → List Bytes
unfolding clean_loop elements
directory o = clean_loop [] (elements o.local_dir)

-- `filepath.Join`
unfoldable pub join : List Bytes → Bytes → List Bytes
unfolding clean_loop elements
join dir rest = clean_loop dir (elements rest)

abbrev ups : List Bytes → List Bytes
ups bs = map (λ b. dots) bs

-- `filepath.Rel` of two clean rooted paths.
rel : List Bytes → List Bytes → List Bytes
rel [] ts = ts
rel (b ∷ bs) [] = ups (b ∷ bs)
rel (b ∷ bs) (t ∷ ts) = let rest = rel bs ts in if same b t then rest else ups (b ∷ bs) ++ t ∷ ts

escapes : List Bytes → Bool
escapes [] = false
escapes (s ∷ r) = same s dots

inside_or_none : List Bytes → List Bytes → Option (List Bytes)
unfolding rel escapes
inside_or_none dir resolved = if escapes (rel dir resolved) then none else some resolved

unfoldable pub resolve_local : Override → Bytes → Option (List Bytes)
unfolding join inside_or_none
resolve_local o rest = inside_or_none (directory o) (join (directory o) rest)
