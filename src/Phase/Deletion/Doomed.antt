-- ===== src/Phase/Deletion/Doomed.antt =====
-- The hosts that pkg/phase/86_delete_worker.go and 87_delete_controller.go go through.
use mathlib.Core.List.{Perm, perm_middle, reverse, reverse_perm}
use mathlib.Core.Path.{subst}
use mathlib.Core.List.Perm
use cargoship.Prelude.{
  ◌≡◌, ◌≢◌, refl, ap, sym, inl, inr, Bool, not, ◌&&◌, List, [], ◌∷◌, ◌++◌, Bytes, All, is_some,
  Bool-cases, arith, if◌then◌else◌,
}
use cargoship.Values.Tree.{same_bytes}
use cargoship.Values.Tree.Keys.{same_bytes_iff}
use cargoship.Cluster.Hosts
use cargoship.Phase.Deletion.Nodes.{Host}
use cargoship.Phase.Deletion.{
  filter, filter_target_hosts, NodeNames, doomed_workers, doomed_controllers,
}

-- A test and its negation share out what another test keeps.
split-perm :
    (c r : Host → Bool) (hs : List Host)
    → Perm (filter (λ h. r h && not (c h)) hs ++ filter (λ h. r h && c h) hs) (filter r hs)
unfolding filter
split-perm c r [] = Perm.refl []
split-perm c r (h ∷ hs) = elim (Bool-cases (r h)) [
  | inr n ↦ rw n (split-perm c r hs)
  | inl y ↦ elim (Bool-cases (c h)) [
    | inl e ↦
        rw (y, e)
          (Perm.trans (perm_middle (filter (λ g. r g && not (c g)) hs) _)
            (Perm.cons h (split-perm c r hs)))
    | inr e ↦ rw (y, e) (Perm.cons h (split-perm c r hs))
  ]
]

filter_same :
    (p q : Host → Bool) (hs : List Host) → All (λ h. p h ≡ q h) hs → filter p hs ≡ filter q hs
unfolding filter
filter_same p q [] e = refl
filter_same p q (h ∷ hs) (e, es) =
    rw e (ap (λ rest. if q h then h ∷ rest else rest) (filter_same p q hs es))

other_name : (m c : Bool) (s t : Bytes) → s ≢ t → (m && (c && not (same_bytes s t))) ≡ (m && c)
other_name m c s t ne = ground (arith, same_bytes_iff s t)

other_names :
    (names : NodeNames) (l : Host) (hs : List Host)
    → All (λ h. h.hostname ≢ l.hostname) hs
    → All
        (λ h.
          (is_some (names h.entry.name)
            && (Hosts.is_controller h.entry && not (same_bytes h.hostname l.hostname)))
          ≡ (is_some (names h.entry.name) && Hosts.is_controller h.entry))
        hs
other_names names l [] ne = tt
other_names names l (h ∷ hs) (ne, nes) = (
  other_name (is_some (names h.entry.name)) (Hosts.is_controller h.entry) h.hostname l.hostname ne,
  other_names names l hs nes,
)

-- Where no host that is to go has the configured hostname of the leader, `DeleteWorkers` and
-- `DeleteControllers` together go through each host that is to go and that has a node, once.
pub doomed_workers-perm :
    (names : NodeNames) (l : Host) (hosts : List Host) (targets : List Bytes)
    → All (λ h. h.hostname ≢ l.hostname) (filter_target_hosts hosts targets)
    → Perm
        (doomed_workers names hosts targets ++ doomed_controllers names l hosts targets)
        (filter (λ h. is_some (names h.entry.name)) (filter_target_hosts hosts targets))
unfolding doomed_workers doomed_controllers
doomed_workers-perm names l hosts targets ne =
    let doomed = filter_target_hosts hosts targets in
    let controllers = λ (h : Host). is_some (names h.entry.name) && Hosts.is_controller h.entry in
    Perm.trans
      (Perm.append_left (doomed_workers names hosts targets) (
        subst (λ hs. Perm (reverse hs) (filter controllers doomed))
          (sym (filter_same _ controllers doomed (other_names names l doomed ne)))
          (reverse_perm (filter controllers doomed))))
      (split-perm (λ h. Hosts.is_controller h.entry) (λ h. is_some (names h.entry.name)) doomed)
