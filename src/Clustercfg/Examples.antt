-- ===== src/Clustercfg/Examples.antt =====
-- Values and documents that are rewritten by internal/clustercfg/vaultpath.go.
use cargoship.Prelude.{◌≡◌, ◌⊎◌, inr, refl, String, true, some, [], ◌∷◌, ◌++◌, Bytes, codes}
use cargoship.Clustercfg.Quoting.{quote_scalar, quoted_scalar_at}
use cargoship.Clustercfg.Quoting.Measures.{read_quoted, quoted_scalar_at-quote_scalar}
use cargoship.Clustercfg.Endings.{
  is_crlf_document, to_feeds, to_pairs, on_line_feeds, on_line_feeds_around,
}

-- A quote, a backslash, a line feed and a bell.
abbrev secret : Bytes
secret = 34 ∷ 92 ∷ 10 ∷ 7 ∷ []

quoted_secret : quote_scalar secret ≡ codes "\"\\\"\\\\\\n\\x07\""
unfolding quote_scalar
quoted_secret = refl

quoted_scalar_at-quote_scalar_example :
    (quoted_scalar_at (quote_scalar secret ++ codes " # pass") ≡ some (quote_scalar secret))
    × (read_quoted (quote_scalar secret) ≡ some secret)
quoted_scalar_at-quote_scalar_example = quoted_scalar_at-quote_scalar secret (codes " # pass")

-- `pass: old` and `user: me` with Windows line endings.
abbrev document : Bytes
document = codes "pass: old" ++ 13 ∷ 10 ∷ (codes "user: me" ++ 13 ∷ 10 ∷ [])

abbrev after_value : Bytes
after_value = 10 ∷ (codes "user: me" ++ 10 ∷ [])

abbrev rewritten : Bytes → String ⊎ Bytes
rewritten s = inr (codes "pass: " ++ (codes "new" ++ after_value))

document_crlf : is_crlf_document document ≡ true
unfolding is_crlf_document
document_crlf = refl

document_feeds : to_feeds document ≡ codes "pass: " ++ (codes "old" ++ after_value)
unfolding to_feeds
document_feeds = refl

on_line_feeds_around_example :
    (document ≡ to_pairs (codes "pass: ") ++ (to_pairs (codes "old") ++ to_pairs after_value))
    × (on_line_feeds document rewritten
        ≡ inr (to_pairs (codes "pass: ") ++ (to_pairs (codes "new") ++ to_pairs after_value)))
on_line_feeds_around_example =
    on_line_feeds_around document (codes "pass: ") (codes "old") after_value (codes "new") rewritten
      document_crlf document_feeds refl
