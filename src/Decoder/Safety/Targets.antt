-- ===== src/Decoder/Safety/Targets.antt =====
-- nvlist/decode.go: readPairs of structs and of typed maps, on every input.
use go_zfs.Base.{
  ℕ, zero, suc, ◌≤◌, ◌∙◌, ap, Bool, true, false, Option, some, none, Bytes, length, arith,
}
use go_zfs.Result.{
  Result, ok, Fault, not_assignable, nil_map_entry, hybrid_type, array_in_struct, ◌>>=◌, Unless,
  gives, rejects, panics, Ensures-Unless, Unless-bind, Unless-mono, Unless-if,
}
use go_zfs.Consts.{NvType, type_nvlist, type_nvlist_array}
use go_zfs.Value.{Value, Entries}
use go_zfs.Decoder.Reader.{Reader, new_reader}
use go_zfs.Decoder.PairReader.{PairReader}
use go_zfs.Decoder.Pairs.{Loop, read_pairs}
use go_zfs.Decoder.Cells.{
  Cell, Cells, Slots, Composite, in_map, in_struct, any_cell, plain_cell, any_map, nil_map,
  map_cell, struct_cell, nil_ptr_cell, ptr_cell, same_type, assign, set_entry, settable, set_field,
  set_primitive_in,
}
use go_zfs.Decoder.Targets.{
  CompositeLoop, read_elem, read_cell, new_element, read_field, read_nested, read_nested_array,
  set_if_some, read_simple, read_value_in, read_pair_in, read_composite, unmarshal_into,
}
use go_zfs.Decoder.Safety.Accesses.{Inside}
use go_zfs.Decoder.Safety.Values.{read_pair_header-Inside, read_primitive-Ends}
use go_zfs.Decoder.Safety.Loop.{
  After, After-refl, After-trans, Returns, Ready, Ready-After, Returns-Ready, InsideOf,
  next_pair-Ensures, read_maps-Ensures, read_pairs-Returns,
}
use go_zfs.Decoder.Safety.Total.{read_nv_header-Ensures}

-- The panics for a target that does not fit the input.
unfoldable pub IsMisfit : Fault → Type 0
IsMisfit not_assignable = Unit {0}
IsMisfit nil_map_entry = Unit {0}
IsMisfit hybrid_type = Unit {0}
IsMisfit array_in_struct = Unit {0}
IsMisfit _ = ⊥

-- Anything, but for a misfit.
abbrev pub EndsUnlessMisfit {ℓ} : {A : Type ℓ} → Result A → Type ℓ
EndsUnlessMisfit = Unless IsMisfit (λ _. Unit {0})

assign-Ends : (c : Cell) (val : Value) → EndsUnlessMisfit (assign c val)
unfolding assign IsMisfit
assign-Ends (any_cell old) val = gives tt
assign-Ends (plain_cell old) val = Unless-if (same_type old val) (λ _. gives tt) (λ _. panics tt)
assign-Ends _ val = panics tt

set_entry-Ends :
    (elt : Cell) (cs : Option Cells) (name : Bytes) (c : Cell)
    → EndsUnlessMisfit (set_entry elt cs name c)
unfolding set_entry IsMisfit
set_entry-Ends elt none name c = panics tt
set_entry-Ends elt (some cs) name c = gives tt

new_element-Ends : (elt : Cell) → EndsUnlessMisfit (new_element elt)
unfolding new_element IsMisfit
new_element-Ends (any_cell old) = gives tt
new_element-Ends (struct_cell ss) = gives tt
new_element-Ends (nil_map (any_cell old)) = gives tt
new_element-Ends (nil_map elt) = gives tt
new_element-Ends _ = panics tt

set_field-Ends :
    (addressable : Bool) (ss : Slots) (name : Bytes) (val : Value) (found : Option Cell)
    → EndsUnlessMisfit (set_field addressable ss name val found)
unfolding set_field
set_field-Ends addressable ss name val none = gives tt
set_field-Ends addressable ss name val (some c) = Unless-bind (assign-Ends c val) λ _ _. gives tt

set_primitive_in-Ends :
    (comp : Composite) (name : Bytes) (val : Value)
    → EndsUnlessMisfit (set_primitive_in comp name val)
unfolding set_primitive_in
set_primitive_in-Ends (in_struct addressable ss) name val =
    set_field-Ends addressable ss name val (settable name addressable ss)
set_primitive_in-Ends (in_map elt cs) name val =
    Unless-bind (assign-Ends elt val) λ c _. set_entry-Ends elt cs name c

set_if_some-Ends :
    (comp : Composite) (name : Bytes) (val : Option Value)
    → EndsUnlessMisfit (set_if_some comp name val)
set_if_some-Ends comp name none = gives tt
set_if_some-Ends comp name (some v) = set_primitive_in-Ends comp name v

abbrev GoesOn {ℓ} : {A : Type ℓ} → Reader → Result (A × Reader) → Type ℓ
GoesOn r = Unless IsMisfit (λ (_, s). After r s)

-- A loop for structs and maps that ends from wherever `fuel` covers what is left of the input.
abbrev CompositeReturns : ℕ → CompositeLoop → Type 0
CompositeReturns fuel loop = (comp : Composite) (r : Reader) → Ready fuel r → GoesOn r (loop comp r)

module _ {fuel : ℕ} (plain : Loop) (loop : CompositeLoop) (plain_returns : Returns fuel plain)
    (returns : CompositeReturns fuel loop) where
  plain-GoesOn : (m : Entries) (r : Reader) → Ready fuel r → GoesOn r (plain m r)
  plain-GoesOn m r d = Ensures-Unless (Returns-Ready plain m r plain_returns d)

  read_elem-GoesOn :
      (addressable : Bool) (c : Cell) (r : Reader)
      → Ready fuel r
      → GoesOn r (read_elem plain loop addressable c r)
  unfolding read_elem
  read_elem-GoesOn addressable (any_cell old) r d = Unless-bind (plain-GoesOn _ r d) λ _ a. gives a
  read_elem-GoesOn addressable (any_map m) r d = Unless-bind (plain-GoesOn m r d) λ _ a. gives a
  read_elem-GoesOn addressable (nil_map elt) r d = Unless-bind (returns _ r d) λ _ a. gives a
  read_elem-GoesOn addressable (map_cell elt cs) r d = Unless-bind (returns _ r d) λ _ a. gives a
  read_elem-GoesOn addressable (struct_cell ss) r d = Unless-bind (returns _ r d) λ _ a. gives a
  read_elem-GoesOn addressable _ r d = rejects

  read_cell-GoesOn :
      (addressable : Bool) (c : Cell) (r : Reader)
      → Ready fuel r
      → GoesOn r (read_cell plain loop addressable c r)
  unfolding read_cell
  read_cell-GoesOn addressable nil_ptr_cell r d = rejects
  read_cell-GoesOn addressable (ptr_cell c) r d =
      Unless-bind (read_elem-GoesOn true c r d) λ _ a. gives a
  read_cell-GoesOn addressable c r d = read_elem-GoesOn addressable c r d

  read_field-GoesOn :
      (addressable : Bool) (ss : Slots) (r : Reader) (name : Bytes) (found : Option Cell)
      → Ready fuel r
      → GoesOn r (read_field plain loop addressable ss r name found)
  unfolding read_field
  read_field-GoesOn addressable ss r name none d = gives (After-refl r d.within)
  read_field-GoesOn addressable ss r name (some c) d =
      Unless-bind (read_cell-GoesOn true c r d) λ _ a. gives a

  read_nested-GoesOn :
      (comp : Composite) (r : Reader) (name : Bytes)
      → Ready fuel r
      → GoesOn r (read_nested plain loop comp r name)
  unfolding read_nested
  read_nested-GoesOn (in_struct addressable ss) r name d =
      read_field-GoesOn addressable ss r name (settable name addressable ss) d
  read_nested-GoesOn (in_map elt cs) r name d = Unless-bind (new_element-Ends elt) λ new _.
      Unless-bind (read_elem-GoesOn true new r d)
        λ (c, s) a. Unless-bind (set_entry-Ends elt cs name _) λ _ _. gives a

  read_nested_array-GoesOn :
      (comp : Composite) (r : Reader) (name : Bytes) (n : ℕ)
      → Ready fuel r
      → GoesOn r (read_nested_array plain comp r name n)
  unfolding read_nested_array IsMisfit
  read_nested_array-GoesOn (in_struct addressable ss) r name n d = panics tt
  read_nested_array-GoesOn (in_map elt cs) r name n d =
      Unless-bind (Ensures-Unless (read_maps-Ensures plain n r plain_returns d)) λ (vs, s) a.
        Unless-bind (assign-Ends elt _)
          λ c _. Unless-bind (set_entry-Ends elt cs name c) λ _ _. gives a

  read_simple-GoesOn :
      (comp : Composite) (r : Reader) (name : Bytes) (t : NvType) (n : ℕ) (p : PairReader)
      → r.current_byte ≤ length r.nvlist
      → Inside p
      → GoesOn r (read_simple comp r name t n p)
  unfolding read_simple
  read_simple-GoesOn comp r name t n p w i =
      Unless-bind (Ensures-Unless (read_primitive-Ends t n p i))
        λ v _. Unless-bind (set_if_some-Ends comp name v) λ _ _. gives (After-refl r w)

  read_value_in-GoesOn :
      (comp : Composite) (r : Reader) (name : Bytes) (t : NvType) (n : ℕ) (p : PairReader)
      → Ready fuel r
      → Inside p
      → GoesOn r (read_value_in plain loop comp r name t n p)
  unfolding read_value_in
  read_value_in-GoesOn comp r name type_nvlist n p d i = read_nested-GoesOn comp r name d
  read_value_in-GoesOn comp r name type_nvlist_array n p d i =
      read_nested_array-GoesOn comp r name n d
  read_value_in-GoesOn comp r name t n p d i = read_simple-GoesOn comp r name t n p d.within i

  read_pair_in-GoesOn :
      (comp : Composite) (r : Reader) (p : PairReader)
      → Ready fuel r
      → Inside p
      → GoesOn r (read_pair_in plain loop comp r p)
  unfolding read_pair_in
  read_pair_in-GoesOn comp r p d i =
      Unless-bind (Ensures-Unless (read_pair_header-Inside p i))
        λ pair j. read_value_in-GoesOn comp r _ _ _ _ d j

  -- A round of the loop, and the rest of it, from behind the size of the pair.
  round-GoesOn :
      (comp : Composite) (r : Reader) (next : Option PairReader)
      → Ready fuel r
      → InsideOf next
      → GoesOn r (elim next [
        | none ↦ ok (comp, r)
        | some p ↦ read_pair_in plain loop comp r p >>= λ (c, r). loop c r
      ])
  round-GoesOn comp r none d i = gives (After-refl r d.within)
  round-GoesOn comp r (some p) d i =
      Unless-bind (read_pair_in-GoesOn comp r p d i)
        λ (c, s) a. Unless-mono (returns c s (Ready-After d a)) λ _ b. After-trans a b

read_composite-CompositeReturns : (fuel : ℕ) → CompositeReturns fuel (read_composite fuel)
unfolding read_composite
read_composite-CompositeReturns zero comp r d = absurd (omega (arith, d.within, d.covered))
read_composite-CompositeReturns (suc fuel) comp r d =
    Unless-bind (Ensures-Unless (next_pair-Ensures r d.has_order)) λ (next, s) (a, step, i).
      let d' : Ready fuel s = record {
        order = d.order;
        has_order = a.same_endianness ∙ d.has_order;
        within = omega (arith, a.inside, ap length a.same_nvlist);
        covered = omega (arith, step, ap length a.same_nvlist, d.covered);
      } in
      Unless-mono
        (round-GoesOn (read_pairs fuel) (read_composite fuel) (read_pairs-Returns fuel)
          (read_composite-CompositeReturns fuel) comp s next d' i)
        λ _ b. After-trans a b

-- On every input, well formed or not and in either encoding and byte order, and for every target, a
-- struct or a map of any type, behind a pointer or not, `Unmarshal` returns or panics only because the
-- target does not fit the input: a value is not assignable to the field or element, a map is nil, an
-- nvlist meets elements that are neither maps nor structs, or an array of nvlists meets a struct. No
-- index is ever out of range, and the loop over pairs ends.
pub unmarshal_into-EndsUnlessMisfit :
    (input : Bytes) (c : Cell) → EndsUnlessMisfit (unmarshal_into input c)
unfolding unmarshal_into
unmarshal_into-EndsUnlessMisfit input c =
    Unless-bind (Ensures-Unless (read_nv_header-Ensures (new_reader input))) λ r ((o, e, n), w).
      let d : Ready (suc (length input)) r = record {
        order = o;
        has_order = e;
        within = omega (arith, ap length n);
        covered = omega (arith, ap length n);
      } in
      let f = suc (length input) in
      Unless-bind
        (read_cell-GoesOn (read_pairs f) (read_composite f) (read_pairs-Returns f)
          (read_composite-CompositeReturns f) false c r d)
        λ _ _. gives tt
