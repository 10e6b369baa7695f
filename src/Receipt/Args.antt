-- ===== src/Receipt/Args.antt =====
-- `redactArgs` of internal/receipt/write.go: the command line of a receipt, without the values of
-- the flags that carry a secret.
pub mod Secrets
use Prim.Native.Char.{Char, code}
use Prim.Native.String.{◌++◌ as text_append}
use cargoship.Prelude.{
  ℕ, String, Bool, true, false, not, List, [], ◌∷◌, any, ◌==◌, str_eq, if◌then◌else◌,
}

abbrev pub redacted_value : String
redacted_value = "<redacted>"

abbrev pub credential_flags : List String
credential_flags =
    "registry-password" ∷ "registry-pull-password" ∷ "registry-push-password" ∷ "registry-secret"
    ∷ "git-pull-password" ∷ "git-push-password" ∷ "password" ∷ "token" ∷ []

-- `credentialFlags[name]`
unfoldable pub is_credential : String → Bool
is_credential name = any (str_eq name) credential_flags

-- `strings.Cut(arg, "=")`: the part before the first "=", and whether there is one.
pub record Cut : Type 0 where
  pub name : String
  pub joined : Bool

cut_more : Char → Cut → Cut
cut_more c r = record { name = String.◌∷◌ c r.name; joined = r.joined }

pub cut_at_equals : String → Cut
unfolding cut_more
cut_at_equals String.[] = record { name = ""; joined = false }
cut_at_equals (String.◌∷◌ c s) =
    let rest = cut_more c (cut_at_equals s) in
    if code c == 61 then record { name = ""; joined = true } else rest

-- `strings.HasPrefix(name, "-")`
has_dash : String → Bool
has_dash String.[] = false
has_dash (String.◌∷◌ c s) = code c == 45

-- `strings.TrimLeft(name, "-")`
trim_dashes : String → String
trim_dashes String.[] = ""
trim_dashes (String.◌∷◌ c s) =
    let rest = trim_dashes s in if code c == 45 then rest else String.◌∷◌ c s

-- The body of the loop behind `redactNext`: what is kept of the argument, and the next `redactNext`.
redact_arg : String → Cut → String × Bool
unfolding has_dash trim_dashes is_credential
redact_arg arg r =
    if not (has_dash r.name)
    then (arg, false)
    else if not (is_credential (trim_dashes r.name))
    then (arg, false)
    else if r.joined
    then (text_append r.name (text_append "=" redacted_value), false)
    else (arg, true)

redact_loop : Bool → List String → List String
unfolding redact_arg cut_at_equals
redact_loop redact_next [] = []
redact_loop true (arg ∷ args) = redacted_value ∷ redact_loop false args
redact_loop false (arg ∷ args) =
    let (kept, redact_next) = redact_arg arg (cut_at_equals arg) in
    kept ∷ redact_loop redact_next args

unfoldable pub redact_args : List String → List String
unfolding redact_loop
redact_args argv = redact_loop false argv
