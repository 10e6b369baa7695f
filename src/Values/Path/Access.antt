-- ===== src/Values/Path/Access.antt =====
-- `SetValuePath`, `GetValuePath` and `ApplyMapping` of pkg/helmvalues/values.go.
use mathlib.Core.Path.{subst}
use cargoship.Prelude.{
  ◌≡◌, sym, ◌∙◌, ap, Bool, true, false, Option, none, some, List, ◌∷◌, Bytes, arith,
}
use cargoship.Values.Tree.{
  Value, mapping, plain, Entries, PathSegment, ok, on_ok, set_segments, as_map,
}
use cargoship.Values.Tree.Writes.{ok-inj, on_ok-inv, set_segments-inv, get-set_segments}
use cargoship.Values.Path.{
  entries_of, value_path, get_value_path, set_at, set_value_path, apply_found, apply_mapping,
}

-- What a write below the root is.
set_at-inv :
    (dst dst' : Entries) (seg : PathSegment) (segs : List PathSegment) (val : Value)
    → set_at dst (seg ∷ segs) val ≡ ok dst'
    → set_segments val (seg ∷ segs) (mapping plain dst) ≡ ok (mapping plain dst')
unfolding set_at as_map
set_at-inv dst dst' seg segs val h =
    let (v, p, q) = on_ok-inv (set_segments val (seg ∷ segs) (mapping plain dst)) _ dst' h in
    let (es, child, n, s, e) = set_segments-inv val seg segs (mapping plain dst) v p in
    p ∙ ap ok (e ∙ ap (mapping plain) (sym (ap entries_of e) ∙ ok-inj q))

-- What a write at a path that is not the root leaves is read there again.
pub get-set_value_path :
    (dst dst' : Entries) (path : Bytes) (seg : PathSegment) (segs : List PathSegment) (val : Value)
    → value_path path ≡ ok (seg ∷ segs)
    → set_value_path dst path val ≡ ok dst'
    → get_value_path dst' path ≡ ok (some val)
unfolding get_value_path set_value_path
get-set_value_path dst dst' path seg segs val p h =
    let w = ap (λ a. on_ok a λ s. set_at dst s val) (sym p) ∙ h in
    rw (p, on_ok)
      (ap ok (
        get-set_segments val (seg ∷ segs) (mapping plain dst) (mapping plain dst')
          (set_at-inv dst dst' seg segs val w)))

-- What a mapping reports and does, by whether its source is defined.
abbrev pub Mapped : Entries → Entries → Entries → Bytes → Bytes → Bool → Type 0
Mapped dst values dst' source target true =
    (v : Value) × (get_value_path values source ≡ ok (some v))
    × (get_value_path dst' target ≡ ok (some v))
Mapped dst values dst' source target false = (get_value_path values source ≡ ok none) × (dst' ≡ dst)

apply_found-Mapped :
    (dst values dst' : Entries) (source target : Bytes) (seg : PathSegment)
    (segs : List PathSegment) (found : Bool) (o : Option Value)
    → value_path target ≡ ok (seg ∷ segs)
    → get_value_path values source ≡ ok o
    → apply_found dst target o ≡ ok (found, dst')
    → Mapped dst values dst' source target found
unfolding apply_found
apply_found-Mapped dst values dst' source target seg segs true none p q h = ground arith
apply_found-Mapped dst values dst' source target seg segs false none p q h =
    (q, sym (ap (λ x. x.1) (ok-inj h)))
apply_found-Mapped dst values dst' source target seg segs found (some v) p q h =
    let (d, w, e) = on_ok-inv (set_value_path dst target v) _ (found, dst') h in
    let w' = w ∙ ap ok (ap (λ x. x.1) (ok-inj e)) in
    subst (Mapped dst values dst' source target) (ap (λ x. x.0) (ok-inj e))
      (v, q, get-set_value_path dst dst' target seg segs v p w')

-- A mapping to a path that is not the root, if it succeeds: where it reports that the source is
-- defined, the target then reads what the source does; where it reports that it is not, the source
-- is absent and nothing has changed.
apply_mapping-Mapped :
    (dst values dst' : Entries) (source target : Bytes) (seg : PathSegment)
    (segs : List PathSegment) (found : Bool)
    → value_path target ≡ ok (seg ∷ segs)
    → apply_mapping dst values source target ≡ ok (found, dst')
    → Mapped dst values dst' source target found
unfolding apply_mapping
apply_mapping-Mapped dst values dst' source target seg segs found p h =
    let (o, q, k) = on_ok-inv (get_value_path values source) _ (found, dst') h in
    apply_found-Mapped dst values dst' source target seg segs found o p q k
