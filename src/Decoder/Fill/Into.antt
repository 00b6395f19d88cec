-- ===== src/Decoder/Fill/Into.antt =====
-- nvlist/decode.go: what readPairs makes of a struct or of a map, given the pairs instead of their bytes.
use go_zfs.Base.{Bool, true, false, Option, some, none, Bytes, ◌≡◌, refl}
use go_zfs.Result.{Result, ok, err, panic, ◌>>=◌, IfOk, invalid_data, array_in_struct}
use go_zfs.Value.{Values, Entries, nvlists, mapping, no_entries}
use go_zfs.Format.{
  NvValue, NvList, flag, number, double, text, numbers, flags, texts, list, lists, end, pair,
}
use go_zfs.Decoder.Cells.{
  Cell, Slots, any_cell, any_map, nil_map, map_cell, struct_cell, nil_ptr_cell, ptr_cell, assign,
  set_slot, settable, Composite, in_map, in_struct, set_entry,
}
use go_zfs.Decoder.Targets.{leave_map, set_if_some, new_element, as_element}
use go_zfs.Decoder.Readable.{value_of, values_of, read_into}
use go_zfs.Decoder.Primitives.{IsPlain}

-- What is set by the pairs of an nvlist: in a map or a struct, and in a `map[string]interface{}`.
module _ (go : Composite → Result Composite) (into : Entries → Entries) where
  unfoldable pub fill_elem : Bool → Cell → Result Cell
  fill_elem addressable (any_cell old) = ok (any_cell (some (mapping (into no_entries))))
  fill_elem addressable (any_map m) = ok (any_map (into m))
  fill_elem addressable (nil_map elt) = do c ← go (in_map elt none); ok (leave_map (nil_map elt) c)
  fill_elem addressable (map_cell elt cs) = do
    c ← go (in_map elt (some cs))
    ok (leave_map (nil_map elt) c)
  fill_elem addressable (struct_cell ss) = do
    c ← go (in_struct addressable ss)
    ok (leave_map (struct_cell ss) c)
  fill_elem addressable _ = err invalid_data

  unfoldable pub fill_pointed : Bool → Cell → Result Cell
  unfolding fill_elem
  fill_pointed addressable nil_ptr_cell = err invalid_data
  fill_pointed addressable (ptr_cell c) = do c ← fill_elem true c; ok (ptr_cell c)
  fill_pointed addressable c = fill_elem addressable c

  unfoldable pub fill_field : Bool → Slots → Bytes → Option Cell → Result Composite
  unfolding fill_pointed set_slot
  fill_field addressable ss name none = ok (in_struct addressable ss)
  fill_field addressable ss name (some c) = do
    c' ← fill_pointed true c
    ok (in_struct addressable (set_slot name c' ss))

  unfoldable pub fill_nested : Composite → Bytes → Result Composite
  unfolding fill_field settable new_element set_entry
  fill_nested (in_struct addressable ss) name =
      fill_field addressable ss name (settable name addressable ss)
  fill_nested (in_map elt cs) name = do
    new ← new_element elt
    c ← fill_elem true new
    set_entry elt cs name (as_element elt c)

unfoldable pub fill_array : Composite → Bytes → Values → Result Composite
unfolding assign set_entry
fill_array (in_struct addressable ss) name vs = panic array_in_struct
fill_array (in_map elt cs) name vs = do c ← assign elt (nvlists vs); set_entry elt cs name c

-- Each pair is set in turn, until one does not fit.
unfoldable mutual
  unfolding fill_nested fill_array

  pub fill : Composite → NvList → Result Composite
  fill comp end = ok comp
  fill comp (pair name v l) = do c ← fill_value comp name v; fill c l

  pub fill_value : Composite → Bytes → NvValue → Result Composite
  fill_value comp name (list l) = fill_nested (λ c. fill c l) (λ m. read_into m l) comp name
  fill_value comp name (lists ls) = fill_array comp name (values_of ls)
  fill_value comp name v = set_if_some comp name (value_of v)

-- What `Unmarshal` makes of a target, given the pairs.
unfoldable pub fill_cell : Cell → NvList → Result Cell
unfolding fill_pointed fill
fill_cell c l = fill_pointed (λ c. fill c l) (λ m. read_into m l) false c

pub fill_value-plain :
    (comp : Composite) (name : Bytes) (v : NvValue)
    → IsPlain v
    → fill_value comp name v ≡ set_if_some comp name (value_of v)
unfolding fill_value
fill_value-plain comp name flag i = refl
fill_value-plain comp name (number k n) i = refl
fill_value-plain comp name (double n) i = refl
fill_value-plain comp name (text s) i = refl
fill_value-plain comp name (numbers k xs) i = refl
fill_value-plain comp name (flags bs) i = refl
fill_value-plain comp name (texts ss) i = refl
fill_value-plain comp name (list l) i = absurd i
fill_value-plain comp name (lists ls) i = absurd i

-- `S` holds of each map or struct that an nvlist is filled into.
module _ (S : Composite → Type 0) where
  unfoldable pub SettledElem : Bool → Cell → Type 0
  SettledElem addressable (nil_map elt) = S (in_map elt none)
  SettledElem addressable (map_cell elt cs) = S (in_map elt (some cs))
  SettledElem addressable (struct_cell ss) = S (in_struct addressable ss)
  SettledElem addressable _ = Unit {0}

  unfoldable pub SettledPointed : Bool → Cell → Type 0
  unfolding SettledElem
  SettledPointed addressable (ptr_cell c) = SettledElem true c
  SettledPointed addressable nil_ptr_cell = Unit {0}
  SettledPointed addressable c = SettledElem addressable c

  -- A field that can be set is there.
  unfoldable pub SettledField : Option Cell → Type 0
  unfolding SettledPointed
  SettledField none = ⊥
  SettledField (some c) = SettledPointed true c

  unfoldable pub SettledNested : Composite → Bytes → Type 0
  unfolding SettledField settable new_element
  SettledNested (in_struct addressable ss) name = SettledField (settable name addressable ss)
  SettledNested (in_map elt cs) name = IfOk (SettledElem true) (new_element elt)

-- While the pairs are set, there is a field that can be set for each nested nvlist that comes to a
-- struct.
unfoldable mutual
  unfolding SettledNested fill_value

  pub Settled : NvList → Composite → Type 0
  Settled end comp = Unit {0}
  Settled (pair name v l) comp =
      SettledValue comp name v × IfOk (Settled l) (fill_value comp name v)

  pub SettledValue : Composite → Bytes → NvValue → Type 0
  SettledValue comp name (list l) = SettledNested (Settled l) comp name
  SettledValue comp name _ = Unit {0}

unfoldable pub SettledCell : Cell → NvList → Type 0
unfolding SettledPointed Settled
SettledCell c l = SettledPointed (Settled l) false c
