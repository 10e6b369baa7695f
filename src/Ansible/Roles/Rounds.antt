-- ===== src/Ansible/Roles/Rounds.antt =====
-- The loops of `deriveRoles` of internal/ansibleinv/roles.go, round by round.
use mathlib.Core.Path.{subst}
use cargoship.Prelude.{
  ◌≡◌, refl, sym, ◌∙◌, ap, ◌⊎◌, inl, inr, true, false, Option, none, some, List, [], ◌∷◌, ◌++◌,
  append_assoc, append-nil, any, Bytes, All, Bool-cases, arith, if◌then◌else◌,
}
use cargoship.Values.Tree.{same_bytes}
use cargoship.Values.Tree.Keys.{same_bytes_iff, same_bytes_refl}
use cargoship.Ansible.Roles.{Assignment, RoleError, is_blank, claimed, claim, visit, visit_all}

-- The visits of which no earlier one, and none of the assignments seen before, has the host.
abbrev pub first_visits : List Assignment → List Assignment → List Assignment
first_visits seen [] = []
first_visits seen (v ∷ vs) = elim (any (λ a. same_bytes a.host v.host) seen) [
  | true ↦ first_visits seen vs
  | false ↦ v ∷ first_visits (seen ++ v ∷ []) vs
]

abbrev pub role_of : Bytes → List Assignment → Option Bytes
role_of host [] = none
role_of host (a ∷ out) = if same_bytes a.host host then some a.role else role_of host out

claimed-none :
    (host : Bytes) (out : List Assignment)
    → claimed host out ≡ none
    → any (λ a. same_bytes a.host host) out ≡ false
unfolding claimed
claimed-none host [] h = refl
claimed-none host (a ∷ out) h = elim (Bool-cases (same_bytes a.host host)) [
  | inl y ↦ ground (arith, y, rw y at h)
  | inr n ↦ rw n (claimed-none host out (rw n at h))
]

claimed-some :
    (host : Bytes) (out : List Assignment) (p : Assignment)
    → claimed host out ≡ some p
    → (any (λ a. same_bytes a.host host) out ≡ true) × (role_of host out ≡ some p.role)
unfolding claimed
claimed-some host [] p h = ground (arith, h)
claimed-some host (a ∷ out) p h = elim (Bool-cases (same_bytes a.host host)) [
  | inl y ↦
      let e : a ≡ p = ground (arith, y, rw y at h) in
      (rw y refl, rw y (ap (λ (b : Assignment). some b.role) e))
  | inr n ↦ let (e, f) = claimed-some host out p (rw n at h) in (rw n e, rw n f)
]

role_of-append :
    (host role : Bytes) (xs ys : List Assignment)
    → role_of host xs ≡ some role
    → role_of host (xs ++ ys) ≡ some role
role_of-append host role [] ys h = ground (arith, h)
role_of-append host role (a ∷ xs) ys h = elim (Bool-cases (same_bytes a.host host)) [
  | inl y ↦ rw y (rw y at h)
  | inr n ↦ rw n (role_of-append host role xs ys (rw n at h))
]

role_of_last :
    (v : Assignment) (out : List Assignment)
    → any (λ a. same_bytes a.host v.host) out ≡ false
    → role_of v.host (out ++ v ∷ []) ≡ some v.role
role_of_last v [] h = rw (same_bytes_refl v.host) refl
role_of_last v (a ∷ out) h = elim (Bool-cases (same_bytes a.host v.host)) [
  | inl y ↦ ground (arith, rw y at h)
  | inr n ↦ rw n (role_of_last v out (rw n at h))
]

-- What one round leaves.
abbrev Visit : Assignment → List Assignment → List Assignment → Type 0
Visit v out out' =
    (is_blank v.host ≡ false)
    × (role_of v.host out' ≡ some v.role)
    × (((any (λ a. same_bytes a.host v.host) out ≡ true) × (out' ≡ out))
        ⊎ ((any (λ a. same_bytes a.host v.host) out ≡ false) × (out' ≡ out ++ v ∷ [])))

claim-Visit :
    (v : Assignment) (out out' : List Assignment) (o : Option Assignment)
    → is_blank v.host ≡ false
    → claimed v.host out ≡ o
    → claim o v out ≡ inr out'
    → Visit v out out'
unfolding claim
claim-Visit v out out' none b c h =
    let e : out ++ v ∷ [] ≡ out' = ground (arith, h) in
    let n = claimed-none v.host out c in
    (b, subst (λ xs. role_of v.host xs ≡ some v.role) e (role_of_last v out n), inr (n, sym e))
claim-Visit v out out' (some p) b c h = elim (Bool-cases (same_bytes p.role v.role)) [
  | inr n ↦ ground (arith, rw n at h)
  | inl y ↦
      let e : out ≡ out' = ground (arith, rw y at h) in
      let (hit, role) = claimed-some v.host out p c in
      (
        b,
        subst (λ xs. role_of v.host xs ≡ some v.role) e
            (role ∙ ap some ((same_bytes_iff p.role v.role).0 y)),
        inl (hit, sym e),
      )
]

visit-Visit :
    (v : Assignment) (out out' : List Assignment) → visit v out ≡ inr out' → Visit v out out'
unfolding visit
visit-Visit v out out' h = elim (Bool-cases (is_blank v.host)) [
  | inl y ↦ ground (arith, rw y at h)
  | inr n ↦ claim-Visit v out out' (claimed v.host out) n refl (rw n at h)
]

module _ (v : Assignment) (vs out : List Assignment) where
  visit_all_next :
      (out' : List Assignment) → visit v out ≡ inr out' → visit_all (v ∷ vs) out ≡ visit_all vs out'
  unfolding visit_all
  visit_all_next out' e = rw (e, visit_all)

  visit_all_stop : (x : RoleError) → visit v out ≡ inl x → visit_all (v ∷ vs) out ≡ inl x
  unfolding visit_all
  visit_all_stop x e = rw (e, visit_all)

  pub first_visits_seen :
      any (λ a. same_bytes a.host v.host) out ≡ true
      → first_visits out (v ∷ vs) ≡ first_visits out vs
  first_visits_seen y = rw (y, first_visits)

  pub first_visits_new :
      any (λ a. same_bytes a.host v.host) out ≡ false
      → first_visits out (v ∷ vs) ≡ v ∷ first_visits (out ++ v ∷ []) vs
  first_visits_new n = rw (n, first_visits)

-- What the loops leave.
abbrev pub Visits : List Assignment → List Assignment → List Assignment → Type 0
Visits vs out out' =
    (out' ≡ out ++ first_visits out vs)
    × All (λ v. (is_blank v.host ≡ false) × (role_of v.host out' ≡ some v.role)) vs

join_rounds :
    (v : Assignment) (vs out out1 out' : List Assignment)
    → Visit v out out1
    → Visits vs out1 out'
    → Visits (v ∷ vs) out out'
join_rounds v vs out out1 out' (b, role, inl (hit, e)) (f, rest) =
    let g : out' ≡ out ++ first_visits out (v ∷ vs) =
      f
      ∙ ap (λ o. o ++ first_visits o vs) e
      ∙ ap (λ r. out ++ r) (sym (first_visits_seen v vs out hit)) in
    let kept : role_of v.host (out1 ++ first_visits out1 vs) ≡ some v.role =
      role_of-append v.host v.role out1 (first_visits out1 vs) role in
    (g, ((b, subst (λ o. role_of v.host o ≡ some v.role) (sym f) kept), rest))
join_rounds v vs out out1 out' (b, role, inr (miss, e)) (f, rest) =
    let g : out' ≡ out ++ first_visits out (v ∷ vs) =
      f
      ∙ ap (λ o. o ++ first_visits o vs) e
      ∙ append_assoc out (v ∷ []) (first_visits (out ++ v ∷ []) vs)
      ∙ ap (λ r. out ++ r) (sym (first_visits_new v vs out miss)) in
    let kept : role_of v.host (out1 ++ first_visits out1 vs) ≡ some v.role =
      role_of-append v.host v.role out1 (first_visits out1 vs) role in
    (g, ((b, subst (λ o. role_of v.host o ≡ some v.role) (sym f) kept), rest))

visit_all_split :
    (v : Assignment) (vs out out' : List Assignment) (o : RoleError ⊎ List Assignment)
    → visit v out ≡ o
    → visit_all (v ∷ vs) out ≡ inr out'
    → ((out1 : List Assignment) → visit_all vs out1 ≡ inr out' → Visits vs out1 out')
    → Visits (v ∷ vs) out out'
visit_all_split v vs out out' (inl x) e h ih = ground (arith, sym (visit_all_stop v vs out x e) ∙ h)
visit_all_split v vs out out' (inr out1) e h ih =
    join_rounds v vs out out1 out' (visit-Visit v out out1 e)
      (ih out1 (sym (visit_all_next v vs out out1 e) ∙ h))

pub visit_all-Visits :
    (vs out out' : List Assignment) → visit_all vs out ≡ inr out' → Visits vs out out'
unfolding visit_all
visit_all-Visits [] out out' h = (ground (arith, h, append-nil out), tt)
visit_all-Visits (v ∷ vs) out out' h =
    visit_all_split v vs out out' (visit v out) refl h (λ out1. visit_all-Visits vs out1 out')
