-- ===== src/Cluster/Registries/Examples.antt =====
-- Registries that are proxied through one mirror, and tests of the validation.
use cargoship.Prelude.{
  String, ◌≡◌, refl, false, not, none, some, List, [], ◌∷◌, is_some, str_eq, if◌then◌else◌,
}
use cargoship.Cluster.Rewrites.{contains, starts_with, has_scheme, refers_beyond}
use cargoship.Cluster.Concurrency.{trim_space}
use cargoship.Values.Text.{atoi}
use cargoship.Cluster.Registries.{
  Registry, Parsers, conflicting, group_missing, is_encrypted, validate, config_host,
  same_registry_config, with_scheme, validate_registries,
}
use cargoship.Cluster.Registries.Sharing.{acceptable, validate_registries_lem}

-- Parsers that know the addresses of these tests.
abbrev parsers : Parsers
parsers = record {
  url = λ u.
      if str_eq u "https://mirror.example.com:5000/v2"
      then some (record { host = "mirror.example.com:5000"; scheme = "https"; has_user = false })
      else none;
  pem = λ t. none;
  groups = λ s. some 1;
}

abbrev mirrored : String → String → String → String → Registry
mirrored name user pass replacement = record {
  name = name;
  authentication = record { username = user; password = pass; token = "" };
  proxy =
      some (record { url = "mirror.example.com:5000/v2"; rewrite = ("^(.*)$", replacement) ∷ [] });
  tls = none;
}

abbrev hidden_value : String
hidden_value = "$ANSIBLE_VAULT;1.1;AES256"

abbrev two_mirrors : List Registry
two_mirrors =
    mirrored "docker.io" "" "" "lib/$1"
    ∷ mirrored "ghcr.io" hidden_value hidden_value "lib/${1}"
    ∷ []

-- An entry without credentials and one with encrypted credentials for the same host are accepted.
one_without : validate_registries parsers two_mirrors ≡ none
unfolding validate_registries validate contains starts_with has_scheme refers_beyond trim_space atoi
    config_host with_scheme same_registry_config is_encrypted
one_without = refl

plain_pair :
    validate_registries parsers
      (mirrored "docker.io" "me" "x" "$1" ∷ mirrored "ghcr.io" "me" "y" "$1" ∷ [])
    ≡ some conflicting
unfolding validate_registries validate contains starts_with has_scheme refers_beyond trim_space atoi
    config_host with_scheme same_registry_config is_encrypted
plain_pair = refl

second_group :
    validate_registries parsers (mirrored "docker.io" "" "" "$$2/${2}" ∷ []) ≡ some group_missing
unfolding validate_registries validate contains starts_with has_scheme refers_beyond trim_space atoi
    config_host with_scheme same_registry_config is_encrypted
second_group = refl

validate_registries_lem_example :
    not (is_some (validate_registries parsers two_mirrors)) ≡ acceptable parsers [] two_mirrors
validate_registries_lem_example = validate_registries_lem parsers two_mirrors
