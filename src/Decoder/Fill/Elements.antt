-- ===== src/Decoder/Fill/Elements.antt =====
-- nvlist/decode.go: readPairs of a target, and the case of a nested nvlist, where the loop over pairs sets
-- known pairs.
use go_zfs.Base.{ℕ, Bool, true, ◌≡◌, ◌∙◌, refl, Option, some, none, Bytes}
use go_zfs.Result.{Result, ok, err, panic, out_of_fuel, ◌>>=◌, IfOk}
use go_zfs.Value.{Entries, no_entries}
use go_zfs.Decoder.Reader.{Reader}
use go_zfs.Decoder.Pairs.{Loop}
use go_zfs.Decoder.Cells.{
  Cell, Cells, Slots, any_cell, plain_cell, any_map, nil_map, map_cell, struct_cell, nil_ptr_cell,
  ptr_cell, other_cell, set_slot, settable, Composite, in_map, in_struct, set_entry,
}
use go_zfs.Decoder.Targets.{
  CompositeLoop, leave_map, read_elem, read_cell, new_element, as_element, read_field, read_nested,
}
use go_zfs.Decoder.Reads.{reader}
use go_zfs.Decoder.Fill.Into.{
  fill_elem, fill_pointed, fill_field, fill_nested, SettledElem, SettledPointed, SettledField,
  SettledNested,
}

-- With the reader that stands at `p`.
abbrev pub with_reader {ℓ} : {A : Type ℓ} → Bytes → ℕ → Result A → Result (A × Reader)
with_reader whole p res = do a ← res; ok (a, reader whole p)

-- A run from there goes on with what was set.
pub go_on-with_reader {ℓ κ} :
    {A : Type ℓ} {B : Type κ} (whole : Bytes) (p : ℕ) (next : A → Reader → Result B)
    (set : Result A)
    → (with_reader whole p set >>= λ (a, r). next a r) ≡ (set >>= λ a. next a (reader whole p))
go_on-with_reader whole p next (ok c) = refl
go_on-with_reader whole p next (err e) = refl
go_on-with_reader whole p next (panic f) = refl
go_on-with_reader whole p next out_of_fuel = refl

-- What is made of the value does not touch the reader.
pub with_reader-bind {ℓ κ} :
    {A : Type ℓ} {B : Type κ} (whole : Bytes) (p : ℕ) (set : Result A) (make : A → Result B)
    → (set >>= λ a. with_reader whole p (make a)) ≡ with_reader whole p (set >>= make)
with_reader-bind whole p (ok c) make = refl
with_reader-bind whole p (err e) make = refl
with_reader-bind whole p (panic f) make = refl
with_reader-bind whole p out_of_fuel make = refl

pub then-with_reader {ℓ κ} :
    {A : Type ℓ} {B : Type κ} (whole : Bytes) (p : ℕ) (set : Result A) (make : A → Result B)
    → (with_reader whole p set >>= λ (a, r). (make a >>= λ b. ok (b, r)))
      ≡ with_reader whole p (set >>= make)
then-with_reader whole p set make =
    go_on-with_reader whole p (λ a r. make a >>= λ b. ok (b, r)) set
    ∙ with_reader-bind whole p set make

module _ (plain : Loop) (loop : CompositeLoop) (go : Composite → Result Composite)
    (into : Entries → Entries) (S : Composite → Type 0) (whole : Bytes) (p q : ℕ)
    (plain-eq : (m : Entries) → plain m (reader whole p) ≡ ok (into m, reader whole q))
    (loop-eq : (c : Composite) → S c → loop c (reader whole p) ≡ with_reader whole q (go c)) where
  abbrev to : Result Cell → Result (Cell × Reader)
  to = with_reader whole q

  leave-eq :
      (old : Cell) (c : Composite)
      → S c
      → (loop c (reader whole p) >>= λ (c, r). ok (leave_map old c, r))
        ≡ to (go c >>= λ c. ok (leave_map old c))
  leave-eq old c s = rw (loop-eq c s) (then-with_reader whole q (go c) (λ c. ok (leave_map old c)))

  pub read_elem-fill_elem :
      (addressable : Bool) (c : Cell)
      → SettledElem S addressable c
      → read_elem plain loop addressable c (reader whole p) ≡ to (fill_elem go into addressable c)
  unfolding read_elem fill_elem SettledElem
  read_elem-fill_elem addressable (any_cell old) s = rw (plain-eq no_entries)
  read_elem-fill_elem addressable (any_map m) s = rw (plain-eq m)
  read_elem-fill_elem addressable (nil_map elt) s = leave-eq (nil_map elt) (in_map elt none) s
  read_elem-fill_elem addressable (map_cell elt cs) s =
      leave-eq (nil_map elt) (in_map elt (some cs)) s
  read_elem-fill_elem addressable (struct_cell ss) s =
      leave-eq (struct_cell ss) (in_struct addressable ss) s
  read_elem-fill_elem addressable (plain_cell v) s = refl
  read_elem-fill_elem addressable nil_ptr_cell s = refl
  read_elem-fill_elem addressable (ptr_cell c) s = refl
  read_elem-fill_elem addressable other_cell s = refl

  pub read_cell-fill_pointed :
      (addressable : Bool) (c : Cell)
      → SettledPointed S addressable c
      → read_cell plain loop addressable c (reader whole p)
        ≡ to (fill_pointed go into addressable c)
  unfolding read_cell fill_pointed SettledPointed
  read_cell-fill_pointed addressable nil_ptr_cell s = refl
  read_cell-fill_pointed addressable (ptr_cell c) s =
      rw (read_elem-fill_elem true c s)
        (then-with_reader whole q (fill_elem go into true c) (λ c. ok (ptr_cell c)))
  read_cell-fill_pointed addressable c s = read_elem-fill_elem addressable c s

  read_field-fill_field :
      (addressable : Bool) (ss : Slots) (name : Bytes) (o : Option Cell)
      → SettledField S o
      → read_field plain loop addressable ss (reader whole p) name o
        ≡ with_reader whole q (fill_field go into addressable ss name o)
  unfolding read_field fill_field SettledField
  read_field-fill_field addressable ss name none s = absurd s
  read_field-fill_field addressable ss name (some c) s = rw (read_cell-fill_pointed true c s) (
      then-with_reader whole q (fill_pointed go into true c)
        (λ c. ok (in_struct addressable (set_slot name c ss))))

  read_new-fill_elem :
      (elt : Cell) (cs : Option Cells) (name : Bytes) (new : Result Cell)
      → IfOk (SettledElem S true) new
      → (do
        n ← new
        (c, r) ← read_elem plain loop true n (reader whole p)
        comp ← set_entry elt cs name (as_element elt c)
        ok (comp, r))
        ≡ with_reader whole q
            (do n ← new; c ← fill_elem go into true n; set_entry elt cs name (as_element elt c))
  read_new-fill_elem elt cs name (ok n) s = rw (read_elem-fill_elem true n s) (
      then-with_reader whole q (fill_elem go into true n)
        (λ c. set_entry elt cs name (as_element elt c)))
  read_new-fill_elem elt cs name (err e) s = refl
  read_new-fill_elem elt cs name (panic f) s = refl
  read_new-fill_elem elt cs name out_of_fuel s = refl

  pub read_nested-fill_nested :
      (comp : Composite) (name : Bytes)
      → SettledNested S comp name
      → read_nested plain loop comp (reader whole p) name
        ≡ with_reader whole q (fill_nested go into comp name)
  unfolding read_nested fill_nested SettledNested
  read_nested-fill_nested (in_struct addressable ss) name s =
      read_field-fill_field addressable ss name (settable name addressable ss) s
  read_nested-fill_nested (in_map elt cs) name s =
      read_new-fill_elem elt cs name (new_element elt) s
