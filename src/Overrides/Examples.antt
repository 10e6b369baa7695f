-- ===== src/Overrides/Examples.antt =====
-- Overrides of a forge and of one organisation on it.
use cargoship.Prelude.{
  List, ◌≡◌, inr, refl, true, Option, none, some, [], ◌∷◌, ◌++◌, All, Bytes, codes, if◌then◌else◌,
}
use cargoship.Overrides.{
  Url, Paths, Override, same, less, parse_http_url, sort_overrides, parse, match_remainder,
  remainder, resolve_match, resolved_url,
}
use cargoship.Overrides.Local.{directory, join, resolve_local}
use cargoship.Overrides.Local.Inside.{IsStep, resolve_local_inside}
use cargoship.Overrides.Choice.{most_specific, resolve_match_specific}

abbrev forge : Bytes
forge = codes "https://f.io"

abbrev team : Bytes
team = codes "https://f.io/t"

-- The same, as the host may be written too.
abbrev loud_team : Bytes
loud_team = codes "https://F.io/t"

abbrev mirror : Bytes
mirror = codes "http://m/"

abbrev file : Bytes
file = codes "https://f.io/t/x.tgz"

abbrev at_host : Bytes → Bytes → Option Url
at_host host path =
    some
      (record { scheme = codes "https"; host = host; path = path; raw_query = []; fragment = [] })

-- Parsers that know the addresses of these tests.
abbrev paths : Paths
paths = record {
  url = λ s.
      if same s forge
      then at_host (codes "f.io") []
      else if same s team
      then at_host (codes "f.io") (codes "/t")
      else if same s loud_team
      then at_host (codes "F.io") (codes "/t")
      else if same s file
      then at_host (codes "f.io") (codes "/t/x.tgz")
      else if same s mirror
      then at_host (codes "m") (codes "/")
      else none;
  abs = λ s. none;
}

abbrev to_mirror : Bytes → Override
to_mirror source = record { source = source; target = mirror; local_dir = [] }

abbrev source_file : Url
source_file = record {
  scheme = codes "https";
  host = codes "f.io";
  path = codes "/t/x.tgz";
  raw_query = [];
  fragment = [];
}

parsed :
    parse paths ((forge ++ 61 ∷ mirror) ∷ (team ++ 61 ∷ mirror) ∷ [])
    ≡ inr (to_mirror team ∷ to_mirror forge ∷ [])
unfolding parse parse_http_url same sort_overrides less
parsed = refl

taken :
    resolve_match paths (to_mirror team ∷ to_mirror forge ∷ []) file
    ≡ some (to_mirror team, codes "x.tgz")
unfolding resolve_match parse_http_url same remainder match_remainder
taken = refl

file_parsed : parse_http_url paths file ≡ some source_file
unfolding parse_http_url same
file_parsed = refl

-- With a capital letter in its host, the longer source comes behind the shorter one.
parsed_loud :
    parse paths ((forge ++ 61 ∷ mirror) ∷ (loud_team ++ 61 ∷ mirror) ∷ [])
    ≡ inr (to_mirror forge ∷ to_mirror loud_team ∷ [])
unfolding parse parse_http_url same sort_overrides less
parsed_loud = refl

taken_loud :
    resolve_match paths (to_mirror forge ∷ to_mirror loud_team ∷ []) file
    ≡ some (to_mirror forge, codes "t/x.tgz")
unfolding resolve_match parse_http_url same remainder match_remainder
taken_loud = refl

sent : resolved_url (to_mirror team) (codes "x.tgz") source_file ≡ codes "http://m/x.tgz"
unfolding resolved_url
sent = refl

resolve_match_specific_example :
    most_specific paths source_file (to_mirror team) (to_mirror team ∷ to_mirror forge ∷ []) ≡ true
resolve_match_specific_example =
    resolve_match_specific paths ((forge ++ 61 ∷ mirror) ∷ (team ++ 61 ∷ mirror) ∷ [])
      (to_mirror team ∷ to_mirror forge ∷ []) file source_file (to_mirror team) (codes "x.tgz")
      parsed file_parsed taken

abbrev staged : Override
staged = record { source = forge; target = codes "srv"; local_dir = codes "/srv/staged" }

climbs_out : resolve_local staged (codes "a/../../etc") ≡ none
unfolding resolve_local directory join same
climbs_out = refl

stays_in :
    resolve_local staged (codes "a/../b") ≡ some (codes "srv" ∷ codes "staged" ∷ codes "b" ∷ [])
unfolding resolve_local directory join same
stays_in = refl

resolve_local_inside_example :
    (below : List Bytes) × (codes "srv" ∷ codes "staged" ∷ codes "b" ∷ []
      ≡ directory staged ++ below)
    × All IsStep below
resolve_local_inside_example =
    resolve_local_inside staged (codes "a/../b") (codes "srv" ∷ codes "staged" ∷ codes "b" ∷ [])
      stays_in
