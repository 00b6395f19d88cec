-- ===== src/Encoder/Safety/Shallow.antt =====
-- nvlist/encoder.go: the values that writeNvPairs collects are nested less deep than where they are.
use mathlib.Core.Path.{subst}
use native.Mathlib.Nat.{le-max_left, le-max_right}
use go_zfs.Base.{
  ℕ, ◌<◌, ◌≤◌, ◌≡◌, refl, Bool-cases, inl, inr, Option, some, none, Bytes, All, arith,
}
use go_zfs.Value.{
  Value, Entries, Fields, ptr, interface, nil_ptr, nil_interface, no_entries, entry, no_fields,
  field, depth, entries_depth, fields_depth,
}
use go_zfs.Encoder.Collect.{
  unpack_interface, unpack_val, Pairs, add_valid, collect_entries, collect_fields, split_tag,
  leaves_out, field_name,
}

unpack_interface-depth : (v u : Value) → unpack_interface v ≡ some u → depth u ≤ depth v
unfolding unpack_interface depth
unpack_interface-depth (interface v) u e =
    let same : v ≡ u = cc in subst (λ u. depth u ≤ depth v) same (omega arith)
unpack_interface-depth nil_interface u e = cc
unpack_interface-depth v u e =
    let same : v ≡ u = cc in subst (λ u. depth u ≤ depth v) same (omega arith)

pub unpack_val-depth : (v u : Value) → unpack_val v ≡ some u → depth u ≤ depth v
unfolding unpack_val unpack_interface depth
unpack_val-depth (ptr v) u e = unpack_interface-depth v u e
unpack_val-depth nil_ptr u e = cc
unpack_val-depth (interface v) u e = unpack_interface-depth (interface v) u e
unpack_val-depth nil_interface u e = cc
unpack_val-depth v u e = unpack_interface-depth v u e

module _ (f : ℕ) where
  -- Every value that is collected is nested less than `f` deep.
  abbrev pub Shallow : Pairs → Type 0
  Shallow = All (λ (name, v). depth v < f)

  add_valid-Shallow :
      (name : Bytes) (found : Option Value) (pairs : Pairs)
      → ((u : Value) → found ≡ some u → depth u < f)
      → Shallow pairs
      → Shallow (add_valid name found pairs)
  add_valid-Shallow name none pairs l h = h
  add_valid-Shallow name (some u) pairs l h = (l u refl, h)

  pub collect_entries-Shallow : (es : Entries) → entries_depth es < f → Shallow (collect_entries es)
  unfolding collect_entries entries_depth
  collect_entries-Shallow no_entries l = tt
  collect_entries-Shallow (entry name v es) l =
      let m = le-max_left (depth v) (entries_depth es) in
      let n = le-max_right (depth v) (entries_depth es) in
      add_valid-Shallow name (unpack_val v) (collect_entries es)
        (λ u e. omega (arith, unpack_val-depth v u e, m))
        (collect_entries-Shallow es (omega (arith, n)))

  pub collect_fields-Shallow : (fs : Fields) → fields_depth fs < f → Shallow (collect_fields fs)
  unfolding collect_fields fields_depth
  collect_fields-Shallow no_fields l = tt
  collect_fields-Shallow (field name tag v fs) l =
      let m = le-max_left (depth v) (fields_depth fs) in
      let n = le-max_right (depth v) (fields_depth fs) in
      let rest = collect_fields-Shallow fs (omega (arith, n)) in
      elim (Bool-cases (leaves_out (split_tag tag).1 (unpack_val v))) [
        | inl e ↦ rw e rest
        | inr e ↦ rw e (
            add_valid-Shallow (field_name (split_tag tag).0 name) (unpack_val v) (collect_fields fs)
              (λ u e. omega (arith, unpack_val-depth v u e, m)) rest)
      ]
