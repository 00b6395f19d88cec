-- ===== src/Decoder/Targets.antt =====
-- nvlist/decode.go: readPairs of any value, and Unmarshal on top of it. A `map[string]interface{}` is
-- filled by `read_pairs`.
use go_zfs.Base.{ℕ, zero, suc, Bool, true, false, Option, some, none, Bytes, length}
use go_zfs.Result.{
  Result, ok, err, panic, out_of_fuel, ◌>>=◌, invalid_data, hybrid_type, array_in_struct,
}
use go_zfs.Consts.{NvType, type_nvlist, type_nvlist_array}
use go_zfs.Value.{Value, mapping, nvlists, no_entries}
use go_zfs.Decoder.Reader.{Reader, read_nv_header, new_reader}
use go_zfs.Decoder.PairReader.{PairReader}
use go_zfs.Decoder.Pairs.{Loop, next_pair, read_pair_header, read_primitive, read_maps, read_pairs}
use go_zfs.Decoder.Cells.{
  Cell, Slots, any_cell, any_map, nil_map, map_cell, struct_cell, ptr_cell, nil_ptr_cell, no_cells,
  assign, set_slot, settable, Composite, in_map, in_struct, set_entry, set_primitive_in,
}

-- The loop over pairs.
abbrev pub CompositeLoop : Type 0
CompositeLoop = Composite → Reader → Result (Composite × Reader)

abbrev pub leave_map : Cell → Composite → Cell
leave_map old (in_map elt none) = nil_map elt
leave_map old (in_map elt (some cs)) = map_cell elt cs
leave_map old (in_struct addressable ss) = struct_cell ss

-- The part of `readPairs` in front of the loop, for a value that is not a pointer: `plain` is the loop
-- for a `map[string]interface{}`, `loop` that for another map or a struct.
unfoldable pub read_elem : Loop → CompositeLoop → Bool → Cell → Reader → Result (Cell × Reader)
read_elem plain loop addressable (any_cell old) r = do
  (m, r) ← plain no_entries r
  ok (any_cell (some (mapping m)), r)
read_elem plain loop addressable (any_map m) r = do (m, r) ← plain m r; ok (any_map m, r)
read_elem plain loop addressable (nil_map elt) r = do
  (c, r) ← loop (in_map elt none) r
  ok (leave_map (nil_map elt) c, r)
read_elem plain loop addressable (map_cell elt cs) r = do
  (c, r) ← loop (in_map elt (some cs)) r
  ok (leave_map (nil_map elt) c, r)
read_elem plain loop addressable (struct_cell ss) r = do
  (c, r) ← loop (in_struct addressable ss) r
  ok (leave_map (struct_cell ss) c, r)
read_elem plain loop addressable _ r = err invalid_data

-- What a pointer points to is addressable.
unfoldable pub read_cell : Loop → CompositeLoop → Bool → Cell → Reader → Result (Cell × Reader)
unfolding read_elem
read_cell plain loop addressable nil_ptr_cell r = err invalid_data
read_cell plain loop addressable (ptr_cell c) r = do
  (c, r) ← read_elem plain loop true c r
  ok (ptr_cell c, r)
read_cell plain loop addressable c r = read_elem plain loop addressable c r

-- The new value for an element of a map. For an interface it is a `map[string]interface{}`.
unfoldable pub new_element : Cell → Result Cell
new_element (any_cell old) = ok (any_map no_entries)
new_element (struct_cell ss) = ok (struct_cell ss)
new_element (nil_map (any_cell old)) = ok (any_map no_entries)
new_element (nil_map elt) = ok (map_cell elt no_cells)
new_element _ = panic hybrid_type

-- The element as it is put into the map.
abbrev pub as_element : Cell → Cell → Cell
as_element (any_cell old) (any_map m) = any_cell (some (mapping m))
as_element elt c = c

-- Nothing is read for a field that cannot be set.
unfoldable pub read_field :
    Loop → CompositeLoop → Bool → Slots → Reader → Bytes → Option Cell → Result (Composite × Reader)
unfolding set_slot read_cell
read_field plain loop addressable ss r name none = ok (in_struct addressable ss, r)
read_field plain loop addressable ss r name (some c) = do
  (c', r) ← read_cell plain loop true c r
  ok (in_struct addressable (set_slot name c' ss), r)

-- The case `typeNvlist`.
unfoldable pub read_nested :
    Loop → CompositeLoop → Composite → Reader → Bytes → Result (Composite × Reader)
unfolding settable read_field new_element set_entry read_elem
read_nested plain loop (in_struct addressable ss) r name =
    read_field plain loop addressable ss r name (settable name addressable ss)
read_nested plain loop (in_map elt cs) r name = do
  new ← new_element elt
  (c, r) ← read_elem plain loop true new r
  comp ← set_entry elt cs name (as_element elt c)
  ok (comp, r)

-- The case `typeNvlistArray`.
unfoldable pub read_nested_array :
    Loop → Composite → Reader → Bytes → ℕ → Result (Composite × Reader)
unfolding assign set_entry
read_nested_array plain (in_struct addressable ss) r name n = panic array_in_struct
read_nested_array plain (in_map elt cs) r name n = do
  (vs, r) ← read_maps plain n r
  c ← assign elt (nvlists vs)
  comp ← set_entry elt cs name c
  ok (comp, r)

abbrev pub set_if_some : Composite → Bytes → Option Value → Result Composite
set_if_some comp name none = ok comp
set_if_some comp name (some v) = set_primitive_in comp name v

-- A case of the switch that looks at the pair alone.
unfoldable pub read_simple :
    Composite → Reader → Bytes → NvType → ℕ → PairReader → Result (Composite × Reader)
unfolding read_primitive set_primitive_in
read_simple comp r name t n p = do
  v ← read_primitive t n p
  comp ← set_if_some comp name v
  ok (comp, r)

-- The `switch nvp.Type`.
unfoldable pub read_value_in :
    Loop
    → CompositeLoop
    → Composite
    → Reader
    → Bytes
    → NvType
    → ℕ
    → PairReader
    → Result (Composite × Reader)
unfolding read_nested read_nested_array read_simple
read_value_in plain loop comp r name type_nvlist n p = read_nested plain loop comp r name
read_value_in plain loop comp r name type_nvlist_array n p = read_nested_array plain comp r name n
read_value_in plain loop comp r name t n p = read_simple comp r name t n p

unfoldable pub read_pair_in :
    Loop → CompositeLoop → Composite → Reader → PairReader → Result (Composite × Reader)
unfolding read_value_in read_pair_header
read_pair_in plain loop comp r p = do
  pair ← read_pair_header p
  read_value_in plain loop comp r pair.name pair.nvp.type pair.nvp.value_elem pair.reader

-- A unit of fuel for each round of the loop and each nested call.
unfoldable pub read_composite : ℕ → CompositeLoop
unfolding next_pair read_pair_in
read_composite zero comp r = out_of_fuel
read_composite (suc fuel) comp r = do
  (next, r) ← next_pair r
  elim next [
    | none ↦ ok (comp, r)
    | some p ↦ do
      (comp, r) ← read_pair_in (read_pairs fuel) (read_composite fuel) comp r p
      read_composite fuel comp r
  ]

-- `Unmarshal(data, val)`; what `val` is given by itself is not addressable.
unfoldable pub unmarshal_into : Bytes → Cell → Result Cell
unfolding read_cell read_nv_header read_pairs read_composite
unmarshal_into input c = do
  r ← read_nv_header (new_reader input)
  (c, r) ←
      read_cell (read_pairs (suc (length input))) (read_composite (suc (length input))) false c r
  ok c
