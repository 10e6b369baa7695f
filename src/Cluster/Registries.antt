-- ===== src/Cluster/Registries.antt =====
-- The registries of a cluster, of api/colonel-byte.dev/v1alpha1/cluster/spec.go: their validation one
-- by one, and against each other.
pub mod Sameness
pub mod Sharing
mod Examples
use Prim.Native.Char.{Char, code}
use Prim.Native.String.{◌++◌ as text_append}
use cargoship.Prelude.{
  ℕ, String, Bool, true, false, not, ◌&&◌, ◌||◌, Option, none, some, List, [], ◌∷◌, any, codes,
  Bytes, ◌==◌, str_eq, if◌then◌else◌, is_some,
}
use cargoship.Cluster.Concurrency.{trim_space}
use cargoship.Cluster.Rewrites.{starts_with, contains, has_scheme, refers_beyond}

pub record RegistryAuth : Type 0 where
  pub username : String
  pub password : String
  pub token : String

pub record RegistryTls : Type 0 where
  pub ca : String
  pub ca_file : String
  pub cert_file : String
  pub key_file : String
  pub insecure_skip_verify : Bool

-- A rewrite is a pattern and its replacement.
pub record RegistryProxy : Type 0 where
  pub url : String
  pub rewrite : List (String × String)

pub record Registry : Type 0 where
  pub name : String
  pub authentication : RegistryAuth
  pub proxy : Option RegistryProxy
  pub tls : Option RegistryTls

-- What `url.Parse` finds in a text.
pub record Url : Type 0 where
  pub host : String
  pub scheme : String
  pub has_user : Bool

-- The parsers that the source calls: of URLs, of PEM blocks (the type of the first block), and of
-- regular expressions (the number of their groups). None stands for a text that they refuse.
pub record Parsers : Type 0 where
  pub url : String → Option Url
  pub pem : String → Option String
  pub groups : String → Option ℕ

pub data RegistryError : Type 0 where
  name_required name_is_url name_is_path name_has_space : RegistryError
  ca_twice ca_not_certificate cert_without_key : RegistryError
  url_required url_invalid url_without_host url_scheme url_credentials : RegistryError
  pattern_invalid replacement_empty group_missing : RegistryError
  user_without_pass pass_without_user : RegistryError
  nothing_configured listed_twice conflicting : RegistryError

abbrev is_blank : String → Bool
is_blank s = str_eq s ""

pub is_vault_encrypted : String → Bool
is_vault_encrypted value = starts_with (codes "$ANSIBLE_VAULT") (trim_space (codes value))

pub is_age_encrypted : String → Bool
is_age_encrypted value =
    starts_with (codes "-----BEGIN AGE ENCRYPTED FILE-----") (trim_space (codes value))

pub is_encrypted : String → Bool
unfolding is_vault_encrypted is_age_encrypted
is_encrypted value = is_vault_encrypted value || is_age_encrypted value

-- A first error, or else a second.
abbrev or_else : Option RegistryError → Option RegistryError → Option RegistryError
or_else none e = e
or_else (some d) e = some d

abbrev fails_if : Bool → RegistryError → Option RegistryError
fails_if b e = if b then some e else none

-- Spaces around the name, or a space or a tab in it.
has_space : Bytes → Bool
has_space [] = false
has_space (c ∷ s) = (c == 32) || ((c == 9) || has_space s)

same_bytes : Bytes → Bytes → Bool
same_bytes [] [] = true
same_bytes [] (d ∷ t) = false
same_bytes (c ∷ s) [] = false
same_bytes (c ∷ s) (d ∷ t) = (c == d) && same_bytes s t

validate_registry_name : String → Option RegistryError
unfolding has_space same_bytes
validate_registry_name name =
    let value = codes name in
    if is_blank name
    then some name_required
    else if str_eq name "*"
    then none
    else if contains (codes "://") value
    then some name_is_url
    else if any (λ c. c == 47) value
    then some name_is_path
    else fails_if (not (same_bytes (trim_space value) value) || has_space value) name_has_space

abbrev is_certificate : Option String → Bool
is_certificate none = false
is_certificate (some t) = str_eq t "CERTIFICATE"

validate_tls : Parsers → Option RegistryTls → Option RegistryError
unfolding is_encrypted
validate_tls p none = none
validate_tls p (some t) =
    if not (is_blank t.ca) && not (is_blank t.ca_file)
    then some ca_twice
    else if (not (is_blank t.ca) && not (is_encrypted t.ca)) && not (is_certificate (p.pem t.ca))
    then some ca_not_certificate
    else if is_blank t.cert_file
    then fails_if (not (is_blank t.key_file)) cert_without_key
    else fails_if (is_blank t.key_file) cert_without_key

-- The address with a scheme.
pub with_scheme : String → String
with_scheme url = if has_scheme (codes url) then url else text_append "https://" url

validate_url : Option Url → Option RegistryError
validate_url none = some url_invalid
validate_url (some u) =
    if is_blank u.host
    then some url_without_host
    else if not (str_eq u.scheme "http") && not (str_eq u.scheme "https")
    then some url_scheme
    else fails_if u.has_user url_credentials

validate_rewrite : Option ℕ → String → Option RegistryError
validate_rewrite none replacement = some pattern_invalid
validate_rewrite (some groups) replacement =
    if is_blank replacement
    then some replacement_empty
    else fails_if (refers_beyond groups (codes replacement)) group_missing

-- The loop over the map of rewrites, in the order in which it meets them.
validate_rewrites : Parsers → List (String × String) → Option RegistryError
unfolding validate_rewrite
validate_rewrites p [] = none
validate_rewrites p ((pattern', replacement) ∷ rest) =
    or_else (validate_rewrite (p.groups pattern') replacement) (validate_rewrites p rest)

validate_proxy : Parsers → Option RegistryProxy → Option RegistryError
unfolding validate_url validate_rewrites
validate_proxy p none = none
validate_proxy p (some x) =
    if is_blank x.url
    then some url_required
    else or_else (validate_url (p.url (with_scheme x.url))) (validate_rewrites p x.rewrite)

validate_auth : RegistryAuth → Option RegistryError
validate_auth a =
    if not (is_blank a.username) && is_blank a.password
    then some user_without_pass
    else fails_if (not (is_blank a.password) && is_blank a.username) pass_without_user

url_of : Option RegistryProxy → String
url_of none = ""
url_of (some x) = x.url

pub proxy_url : Registry → String
unfolding url_of
proxy_url r = url_of r.proxy

pub validate : Parsers → Registry → Option RegistryError
unfolding validate_registry_name validate_tls validate_proxy validate_auth
validate p r = or_else (validate_registry_name r.name) (
    or_else (validate_tls p r.tls) (
      or_else (validate_proxy p r.proxy) (
        or_else (validate_auth r.authentication) (
          if not (is_blank (proxy_url r)) || is_some r.tls
          then none
          else fails_if
              (is_blank r.authentication.username
                && (is_blank r.authentication.password && is_blank r.authentication.token))
              nothing_configured))))

pub mirror_endpoint : Registry → String
unfolding proxy_url
mirror_endpoint r = if is_blank (proxy_url r) then "" else with_scheme (proxy_url r)

-- `strings.Cut(endpoint, "/")`, the part before.
before_slash : String → String
before_slash String.[] = ""
before_slash (String.◌∷◌ c s) =
    let rest = before_slash s in if code c == 47 then "" else String.◌∷◌ c rest

host_by : String → Option Url → String
unfolding before_slash
host_by endpoint none = before_slash endpoint
host_by endpoint (some u) = if is_blank u.host then before_slash endpoint else u.host

pub config_host : Parsers → Registry → String
unfolding mirror_endpoint host_by
config_host p r =
    if is_blank (mirror_endpoint r)
    then r.name
    else host_by (mirror_endpoint r) (p.url (mirror_endpoint r))

abbrev same_auth : RegistryAuth → RegistryAuth → Bool
same_auth a b =
    str_eq a.username b.username && (str_eq a.password b.password && str_eq a.token b.token)

abbrev same_bool : Bool → Bool → Bool
same_bool true b = b
same_bool false b = not b

abbrev same_settings : RegistryTls → RegistryTls → Bool
same_settings s t =
    str_eq s.ca t.ca
    && (str_eq s.ca_file t.ca_file
        && (str_eq s.cert_file t.cert_file
            && (str_eq s.key_file t.key_file
                && same_bool s.insecure_skip_verify t.insecure_skip_verify)))

abbrev same_tls : Option RegistryTls → Option RegistryTls → Bool
same_tls none none = true
same_tls none (some t) = false
same_tls (some s) none = false
same_tls (some s) (some t) = same_settings s t

abbrev sealed : String → Bool
sealed s = is_encrypted s || is_blank s

all_sealed : RegistryAuth → Bool
all_sealed a = sealed a.username && (sealed a.password && sealed a.token)

-- Whether credentials that differ are let through.
auth_refused : RegistryAuth → RegistryAuth → Bool
unfolding all_sealed
auth_refused a b =
    not (all_sealed a) || (not (all_sealed b) || (not (is_blank a.token) || not (is_blank b.token)))

pub same_registry_config : Registry → Registry → Bool
unfolding auth_refused
same_registry_config a b =
    if not (same_auth a.authentication b.authentication)
      && auth_refused a.authentication b.authentication
    then false
    else same_tls a.tls b.tls

-- `byHost[host]`
find_host : String → List (String × Registry) → Option Registry
find_host h [] = none
find_host h ((k, r) ∷ m) = if str_eq k h then some r else find_host h m

abbrev clashes : Option Registry → Registry → Bool
clashes none r = false
clashes (some previous) r = not (same_registry_config previous r)

note_host :
    Option Registry → String → Registry → List (String × Registry) → List (String × Registry)
note_host none host r by_host = (host, r) ∷ by_host
note_host (some previous) host r by_host = by_host

-- The loop of `ValidateRegistries`, with its two maps.
validate_loop :
    Parsers → List String → List (String × Registry) → List Registry → Option RegistryError
unfolding find_host note_host
validate_loop p by_name by_host [] = none
validate_loop p by_name by_host (r ∷ rs) =
    let host = config_host p r in
    let found = find_host host by_host in
    let rest = validate_loop p (r.name ∷ by_name) (note_host found host r by_host) rs in
    or_else (validate p r) (
      if any (λ n. str_eq n r.name) by_name
      then some listed_twice
      else if clashes found r
      then some conflicting
      else rest)

pub validate_registries : Parsers → List Registry → Option RegistryError
unfolding validate_loop
validate_registries p rs = validate_loop p [] [] rs
