-- ===== src/Cluster/Rewrites.antt =====
-- The regular expressions of api/colonel-byte.dev/v1alpha1/cluster/spec.go that look at an endpoint
-- and at the replacement of a rewrite. A text is the list of its bytes, taken to be ASCII.
use cargoship.Prelude.{
  ℕ, Bool, true, false, ◌&&◌, ◌||◌, Option, none, some, List, [], ◌∷◌, ◌++◌, any, Bytes, ltb, leb,
  ◌==◌, if◌then◌else◌,
}
use cargoship.Values.Text.{atoi}

-- `strings.HasPrefix(s, p)`
unfoldable pub starts_with : Bytes → Bytes → Bool
starts_with [] s = true
starts_with (c ∷ p) [] = false
starts_with (c ∷ p) (d ∷ s) = (c == d) && starts_with p s

-- `strings.Contains(s, p)`, of a text `p` that is not empty.
unfoldable pub contains : Bytes → Bytes → Bool
unfolding starts_with
contains p [] = false
contains p (c ∷ s) = starts_with p (c ∷ s) || contains p s

abbrev is_letter : ℕ → Bool
is_letter c = (leb 65 c && leb c 90) || (leb 97 c && leb c 122)

abbrev is_digit : ℕ → Bool
is_digit c = leb 48 c && leb c 57

abbrev colon_slashes : Bytes
colon_slashes = 58 ∷ 47 ∷ 47 ∷ []

-- `[a-zA-Z0-9+.\-]*://`; a colon is none of these bytes.
scheme_tail : Bytes → Bool
unfolding starts_with
scheme_tail [] = false
scheme_tail (c ∷ s) =
    let rest = scheme_tail s in
    if is_letter c || (is_digit c || any (λ d. c == d) (43 ∷ 46 ∷ 45 ∷ []))
    then rest
    else starts_with colon_slashes (c ∷ s)

-- `endpointSchemeRegex.MatchString`
unfoldable pub has_scheme : Bytes → Bool
unfolding scheme_tail
has_scheme [] = false
has_scheme (c ∷ s) = is_letter c && scheme_tail s

-- `strings.ReplaceAll(replacement, "$$", "")`
drop_escaped : Bytes → Bytes
drop_escaped [] = []
drop_escaped (c ∷ []) = c ∷ []
drop_escaped (c ∷ (d ∷ s)) =
    let rest = drop_escaped s in
    let kept = drop_escaped (d ∷ s) in if (c == 36) && (d == 36) then rest else c ∷ kept

abbrev is_word : ℕ → Bool
is_word c = is_letter c || (is_digit c || c == 95)

-- The longest word that the text starts with, and what is behind it.
word : Bytes → Bytes × Bytes
word [] = ([], [])
word (c ∷ s) = let (w, rest) = word s in if is_word c then (c ∷ w, rest) else ([], c ∷ s)

closed : Bytes × Bytes → List Bytes
closed (w, []) = []
closed ([], c ∷ s) = []
closed (b ∷ w, c ∷ s) = if c == 125 then (b ∷ w) ∷ [] else []

braced : Bytes → List Bytes
unfolding word closed
braced [] = []
braced (c ∷ s) = if c == 123 then closed (word s) else []

-- What `rewriteGroupRefRegex` matches behind a dollar sign, without the braces.
reference : Bytes → Bytes × Bytes → List Bytes
unfolding braced
reference s ([], rest) = braced s
reference s (b ∷ w, rest) = (b ∷ w) ∷ []

-- `FindAllStringSubmatch`: a match holds no further dollar sign, so that the next one is looked for
-- right behind its own.
references : Bytes → List Bytes
unfolding reference word
references [] = []
references (c ∷ s) = (if c == 36 then reference s (word s) else []) ++ references s

beyond : ℕ → Option (Bool × ℕ) → Bool
beyond groups none = false
beyond groups (some (minus, n)) = ltb groups n

-- Whether a replacement refers by number to a group that the pattern does not have.
unfoldable pub refers_beyond : ℕ → Bytes → Bool
unfolding drop_escaped references beyond
refers_beyond groups replacement =
    any (λ r. beyond groups (atoi r)) (references (drop_escaped replacement))
