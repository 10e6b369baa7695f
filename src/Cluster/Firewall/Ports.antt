-- ===== src/Cluster/Firewall/Ports.antt =====
-- `validatePort` of api/colonel-byte.dev/v1alpha1/cluster/firewall.go against the form of a port.
use mathlib.Core.Path.{subst}
use cargoship.Prelude.{
  ℕ, ◌≤◌, ◌<◌, ◌≡◌, ◌↔◌, ◌⊎◌, refl, sym, ◌∙◌, ap, inl, inr, Bool, true, false, ◌&&◌, ◌||◌, Option,
  none, some, [], ◌∷◌, ◌++◌, Bytes, ltb, ◌==◌, length, All, Bool-cases, Option-cases, arith,
  if◌then◌else◌,
}
use cargoship.Values.Text.{atoi, cut}
use cargoship.Values.Text.Numbers.{decimal, is_digit, atoi-decimal}
use cargoship.Cluster.Firewall.{
  FirewallError, all_digits, short_number, port_pattern, port_number, ascending, high_part,
  check_numbers, validate_port, single_part, invalid_port,
}

-- One to five digits with the value of a port.
abbrev IsPortNumber : Bytes → ℕ → Type 0
IsPortNumber s n =
    All (λ c. is_digit c ≡ true) s
    × (1 ≤ length s)
    × (length s ≤ 5)
    × (decimal 0 s ≡ n)
    × (1 ≤ n)
    × (n ≤ 65535)

abbrev IsPort : Bytes → Type 0
IsPort port =
    (port ≡ [])
    ⊎ (((n : ℕ) × IsPortNumber port n)
        ⊎ ((low high : Bytes) × (m n : ℕ) × (port ≡ low ++ 45 ∷ high)
            × IsPortNumber low m
            × IsPortNumber high n
            × (m < n)))

all_digits-All : (s : Bytes) → (all_digits s ≡ true) ↔ All (λ c. is_digit c ≡ true) s
all_digits-All [] = ((λ h. tt), (λ h. refl))
all_digits-All (c ∷ s) = elim (Bool-cases (is_digit c)) [
  | inl y ↦ ((λ h. (y, (all_digits-All s).0 (rw y at h))), (λ h. rw y ((all_digits-All s).1 h.1)))
  | inr n ↦ ((λ h. ground (arith, rw n at h)), (λ h. ground (arith, n, h.0)))
]

short_number_lem :
    (s : Bytes)
    → (short_number s ≡ true) ↔ (All (λ c. is_digit c ≡ true) s × (1 ≤ length s) × (length s ≤ 5))
short_number_lem s = (
  (λ h. ((all_digits-All s).0 (ground (arith, h)), ground (arith, h), ground (arith, h))),
  (λ (ds, l, u). ground (arith, (all_digits-All s).1 ds, l, u)),
)

abbrev ranged : ℕ → Option ℕ
ranged n = if ltb n 1 || ltb 65535 n then none else some n

ranged-some : (n m : ℕ) → (ranged n ≡ some m) ↔ ((n ≡ m) × (1 ≤ m) × (m ≤ 65535))
ranged-some n m = (
  (λ h. (ground (arith, h), ground (arith, h), ground (arith, h))),
  (λ (e, l, u). ground (arith, e, l, u)),
)

port_number-atoi : (s : Bytes) → short_number s ≡ true → port_number (atoi s) ≡ ranged (decimal 0 s)
unfolding port_number
port_number-atoi s h = let (ds, l, u) = (short_number_lem s).0 h in rw (atoi-decimal s ds l u) refl

number_of :
    (s : Bytes) (n : ℕ) → short_number s ≡ true → port_number (atoi s) ≡ some n → IsPortNumber s n
number_of s n h e =
    let (ds, l, u) = (short_number_lem s).0 h in
    let (v, a, b) = (ranged-some (decimal 0 s) n).0 (sym (port_number-atoi s h) ∙ e) in
    (ds, l, u, v, a, b)

of_number :
    (s : Bytes) (n : ℕ)
    → IsPortNumber s n
    → (short_number s ≡ true) × (port_number (atoi s) ≡ some n)
of_number s n (ds, l, u, v, a, b) =
    let h = (short_number_lem s).1 (ds, l, u) in
    (h, port_number-atoi s h ∙ (ranged-some (decimal 0 s) n).1 (v, a, b))

-- The form of a port by what the cut at a dash gives.
abbrev Form : Bytes → Option (Bytes × Bytes) → Type 0
Form port none = (n : ℕ) × IsPortNumber port n
Form port (some (low, high)) = (m n : ℕ) × IsPortNumber low m × IsPortNumber high n × (m < n)

abbrev checked : Bytes → Option (Bytes × Bytes) → Option FirewallError
checked port o = if port_pattern port o then check_numbers port o else some invalid_port

single_part-none : (o : Option ℕ) → single_part o ≡ none → (n : ℕ) × (o ≡ some n)
unfolding single_part
single_part-none none h = ground (arith, h)
single_part-none (some n) h = (n, refl)

ascending-none : (m : ℕ) (o : Option ℕ) → ascending m o ≡ none → (n : ℕ) × (o ≡ some n) × (m < n)
unfolding ascending
ascending-none m none h = ground (arith, h)
ascending-none m (some n) h = (n, refl, ground (arith, h))

high_part-none :
    (o : Option ℕ) (high : Bytes)
    → high_part o high ≡ none
    → (m n : ℕ) × (o ≡ some m) × (port_number (atoi high) ≡ some n) × (m < n)
unfolding high_part
high_part-none none high h = ground (arith, h)
high_part-none (some m) high h =
    let (n, e, l) = ascending-none m (port_number (atoi high)) h in (m, n, refl, e, l)

matched :
    (b : Bool) (o : Option FirewallError)
    → (if b then o else some invalid_port) ≡ none
    → (b ≡ true) × (o ≡ none)
matched true o h = (refl, h)
matched false o h = ground (arith, h)

checked-Form : (port : Bytes) (o : Option (Bytes × Bytes)) → checked port o ≡ none → Form port o
unfolding port_pattern check_numbers
checked-Form port none h =
    let (y, c) = matched (short_number port) (single_part (port_number (atoi port))) h in
    let (n, e) = single_part-none (port_number (atoi port)) c in (n, number_of port n y e)
checked-Form port (some (low, high)) h =
    let (y, c) =
      matched (short_number low && short_number high) (high_part (port_number (atoi low)) high) h in
    let (m, n, e, f, l) = high_part-none (port_number (atoi low)) high c in
    (m, n, number_of low m (ground (arith, y)) e, number_of high n (ground (arith, y)) f, l)

Form-checked : (port : Bytes) (o : Option (Bytes × Bytes)) → Form port o → checked port o ≡ none
unfolding port_pattern check_numbers single_part high_part ascending
Form-checked port none (n, p) = let (y, e) = of_number port n p in rw y (ap single_part e)
Form-checked port (some (low, high)) (m, n, p, q, l) =
    let (y, e) = of_number low m p in
    let (z, f) = of_number high n q in
    rw y (rw z (ap (λ o. high_part o high) e ∙ ap (ascending m) f ∙ ground (arith, l)))

module _ (c : ℕ) (s : Bytes) where
  cut_here : (c == 45) ≡ true → cut 45 (c ∷ s) ≡ some ([], s)
  unfolding cut
  cut_here y = rw (y, cut)

  cut_never : (c == 45) ≡ false → cut 45 s ≡ none → cut 45 (c ∷ s) ≡ none
  unfolding cut
  cut_never n e = rw (n, cut) (rw e refl)

  cut_later :
      (a b : Bytes) → (c == 45) ≡ false → cut 45 s ≡ some (a, b) → cut 45 (c ∷ s) ≡ some (c ∷ a, b)
  unfolding cut
  cut_later a b n e = rw (n, cut) (rw e refl)

parts_equal :
    (s t a b : Bytes)
    → ◌≡◌ {A = Option (Bytes × Bytes)} (some (s, t)) (some (a, b))
    → s ++ 45 ∷ t ≡ a ++ 45 ∷ b
parts_equal s t a b h = ground (arith, h)

cut_sound : (s a b : Bytes) → cut 45 s ≡ some (a, b) → s ≡ a ++ 45 ∷ b
unfolding cut
cut_sound [] a b h = ground (arith, h)
cut_sound (c ∷ s) a b h = elim (Bool-cases (c == 45)) [
  | inl y ↦
      let e : c ≡ 45 = ground (arith, y) in
      ap (λ d. d ∷ s) e ∙ parts_equal [] s a b (sym (cut_here c s y) ∙ h)
  | inr n ↦ elim (Option-cases (cut 45 s)) [
    | inl e ↦ ground (arith, sym (cut_never c s n e) ∙ h)
    | inr ((d, t), e) ↦
        ap (λ r. c ∷ r) (cut_sound s d t e)
        ∙ parts_equal (c ∷ d) t a b (sym (cut_later c s d t n e) ∙ h)
  ]
]

not_dash : (c : ℕ) → is_digit c ≡ true → (c == 45) ≡ false
not_dash c d = ground (arith, d)

-- Digits hold no dash.
cut_digits : (s : Bytes) → All (λ c. is_digit c ≡ true) s → cut 45 s ≡ none
unfolding cut
cut_digits [] ds = refl
cut_digits (c ∷ s) (d, ds) = cut_never c s (not_dash c d) (cut_digits s ds)

cut_at_dash : (s t : Bytes) → All (λ c. is_digit c ≡ true) s → cut 45 (s ++ 45 ∷ t) ≡ some (s, t)
unfolding cut
cut_at_dash [] t ds = refl
cut_at_dash (c ∷ s) t (d, ds) = cut_later c (s ++ 45 ∷ t) s t (not_dash c d) (cut_at_dash s t ds)

Form-IsPort :
    (port : Bytes) (o : Option (Bytes × Bytes)) → cut 45 port ≡ o → Form port o → IsPort port
Form-IsPort port none e f = inr (inl f)
Form-IsPort port (some (low, high)) e (m, n, p, q, l) =
    inr (inr (low, high, m, n, cut_sound port low high e, p, q, l))

range_accepted :
    (low high : Bytes) (m n : ℕ)
    → IsPortNumber low m
    → IsPortNumber high n
    → m < n
    → checked (low ++ 45 ∷ high) (cut 45 (low ++ 45 ∷ high)) ≡ none
range_accepted low high m n p q l =
    ap (checked (low ++ 45 ∷ high)) (cut_at_dash low high p.0)
    ∙ Form-checked (low ++ 45 ∷ high) (some (low, high)) (m, n, p, q, l)

accepted : (port : Bytes) → IsPort port → (port ≡ []) ⊎ (checked port (cut 45 port) ≡ none)
accepted port (inl e) = inl e
accepted port (inr (inl (n, p))) =
    inr (ap (checked port) (cut_digits port p.0) ∙ Form-checked port none (n, p))
accepted port (inr (inr (low, high, m, n, e, p, q, l))) =
    inr (subst (λ s. checked s (cut 45 s) ≡ none) (sym e) (range_accepted low high m n p q l))

-- A port is accepted exactly if it is empty, or a number of one to five digits from 1 to 65535, or
-- two of them with a dash in between, of which the first is the smaller one.
validate_port_lem : (port : Bytes) → (validate_port port ≡ none) ↔ IsPort port
unfolding validate_port
validate_port_lem [] = ((λ h. inl refl), (λ h. refl))
validate_port_lem (c ∷ s) = (
  (λ h. Form-IsPort (c ∷ s) (cut 45 (c ∷ s)) refl (checked-Form (c ∷ s) (cut 45 (c ∷ s)) h)),
  (λ h. elim (accepted (c ∷ s) h) [ inl e ↦ ground (arith, e) | inr e ↦ e ]),
)
