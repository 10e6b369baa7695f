-- ===== src/Clustercfg/Endings.antt =====
-- `onLineFeeds` of internal/clustercfg/vaultpath.go: a document with Windows line endings is rewritten
-- with line feeds, and gets its endings back.
use mathlib.Core.Path.{subst}
use cargoship.Prelude.{
  ℕ, ◌+◌, ◌≤◌, ◌≡◌, refl, sym, ap, ◌∙◌, ◌⊎◌, inl, inr, Bool, true, false, ◌&&◌, [], ◌∷◌, ◌++◌,
  Bytes, ltb, ◌==◌, arith, Bool-cases, if◌then◌else◌,
}

-- `bytes.Count(src, "\n")`
feeds : Bytes → ℕ
feeds [] = 0
feeds (c ∷ s) = (if c == 10 then 1 else 0) + feeds s

abbrev starts_with_feed : Bytes → Bool
starts_with_feed [] = false
starts_with_feed (c ∷ s) = c == 10

-- `bytes.Count(src, "\r\n")`
pairs : Bytes → ℕ
pairs [] = 0
pairs (c ∷ s) = (if (c == 13) && starts_with_feed s then 1 else 0) + pairs s

unfoldable pub is_crlf_document : Bytes → Bool
unfolding feeds pairs
is_crlf_document src = ltb 0 (feeds src) && feeds src == pairs src

-- `bytes.ReplaceAll(src, "\r\n", "\n")`
unfoldable pub to_feeds : Bytes → Bytes
to_feeds [] = []
to_feeds (c ∷ s) =
    let rest = to_feeds s in if (c == 13) && starts_with_feed s then rest else c ∷ rest

-- `bytes.ReplaceAll(rewritten, "\n", "\r\n")`
pub to_pairs : Bytes → Bytes
to_pairs [] = []
to_pairs (c ∷ s) = let rest = to_pairs s in if c == 10 then 13 ∷ 10 ∷ rest else c ∷ rest

with_pairs : {E : Type 0} → E ⊎ Bytes → E ⊎ Bytes
with_pairs (inl e) = inl e
with_pairs (inr t) = inr (to_pairs t)

pub on_line_feeds : {E : Type 0} → Bytes → (Bytes → E ⊎ Bytes) → E ⊎ Bytes
unfolding is_crlf_document to_feeds with_pairs
on_line_feeds src rewrite =
    if is_crlf_document src then with_pairs (rewrite (to_feeds src)) else rewrite src

pairs_le : (s : Bytes) → pairs s + (if starts_with_feed s then 1 else 0) ≤ feeds s
unfolding pairs feeds
pairs_le [] = omega arith
pairs_le (c ∷ s) = ground (arith, pairs_le s)

-- A text with a carriage return in front of every line feed, but for one at its start.
back :
    (s : Bytes)
    → feeds s ≡ pairs s + (if starts_with_feed s then 1 else 0)
    → to_pairs (to_feeds s) ≡ (if starts_with_feed s then 13 ∷ s else s)
unfolding feeds pairs to_feeds to_pairs
back [] h = refl
back (c ∷ s) h = elim (Bool-cases (c == 10)) [
  | inl e ↦
      let n : starts_with_feed s ≡ false = ground (arith, e, pairs_le s) in
      let r =
        subst
          (λ b.
            feeds s ≡ pairs s + (if b then 1 else 0)
            → to_pairs (to_feeds s) ≡ (if b then 13 ∷ s else s))
          n (back s) (ground (arith, e, n)) in
      let m : (c == 13) ≡ false = ground (arith, e) in rw (m, e) (λ i. 13 ∷ (sym (ten e) i ∷ r i))
  | inr e ↦ elim (Bool-cases (starts_with_feed s)) [
    | inl n ↦ elim (Bool-cases (c == 13)) [
      | inl m ↦
          let r =
            subst
              (λ b.
                feeds s ≡ pairs s + (if b then 1 else 0)
                → to_pairs (to_feeds s) ≡ (if b then 13 ∷ s else s))
              n (back s) (ground (arith, e, n, m)) in
          rw (m, n, e) (r ∙ λ i. thirteen m i ∷ s)
      | inr m ↦ absurd (ground (arith, e, n, m, pairs_le s))
    ]
    | inr n ↦
        let r =
          subst
            (λ b.
              feeds s ≡ pairs s + (if b then 1 else 0)
              → to_pairs (to_feeds s) ≡ (if b then 13 ∷ s else s))
            n (back s) (ground (arith, e, n)) in
        kept e n r
  ]
]
  where
    ten : (c == 10) ≡ true → c ≡ 10
    ten e = ground (arith, e)

    thirteen : (c == 13) ≡ true → 13 ≡ c
    thirteen e = ground (arith, e)

    kept :
        (c == 10) ≡ false
        → starts_with_feed s ≡ false
        → to_pairs (to_feeds s) ≡ s
        → to_pairs (to_feeds (c ∷ s)) ≡ (if c == 10 then 13 ∷ c ∷ s else c ∷ s)
    kept e n r = elim (Bool-cases (c == 13)) [
      | inl m ↦ rw (m, n, e) (λ i. c ∷ r i)
      | inr m ↦ rw (m, e) (λ i. c ∷ r i)
    ]

restored : (s : Bytes) → is_crlf_document s ≡ true → to_pairs (to_feeds s) ≡ s
unfolding is_crlf_document
restored s h =
    let n : starts_with_feed s ≡ false = ground (arith, pairs_le s) in
    subst
      (λ b.
        feeds s ≡ pairs s + (if b then 1 else 0)
        → to_pairs (to_feeds s) ≡ (if b then 13 ∷ s else s))
      n (back s) (ground (arith, n))

to_pairs_append : (s t : Bytes) → to_pairs (s ++ t) ≡ to_pairs s ++ to_pairs t
unfolding to_pairs
to_pairs_append [] t = refl
to_pairs_append (c ∷ s) t = elim (Bool-cases (c == 10)) [
  | inl e ↦ rw (e, to_pairs_append s t) refl
  | inr e ↦ rw (e, to_pairs_append s t) refl
]

to_pairs_around :
    (a b c : Bytes) → to_pairs (a ++ (b ++ c)) ≡ to_pairs a ++ (to_pairs b ++ to_pairs c)
to_pairs_around a b c = to_pairs_append a (b ++ c) ∙ ap (λ t. to_pairs a ++ t) (to_pairs_append b c)

-- Where every line break of a document is a carriage return and a line feed, and the rewriting of
-- its text with line feeds alone puts one span in the place of another, the document goes back out
-- with the bytes before and behind that span as they were, whatever they hold, and with the new span
-- in its own line endings.
pub on_line_feeds_around :
    {E : Type 0} (src a b c d : Bytes) (rewrite : Bytes → E ⊎ Bytes)
    → is_crlf_document src ≡ true
    → to_feeds src ≡ a ++ (b ++ c)
    → rewrite (to_feeds src) ≡ inr (a ++ (d ++ c))
    → (src ≡ to_pairs a ++ (to_pairs b ++ to_pairs c))
      × (on_line_feeds src rewrite ≡ inr (to_pairs a ++ (to_pairs d ++ to_pairs c)))
unfolding on_line_feeds with_pairs
on_line_feeds_around src a b c d rewrite h f r = (
  sym (restored src h) ∙ ap to_pairs f ∙ to_pairs_around a b c,
  rw (h, r) (ap inr (to_pairs_around a d c)),
)
