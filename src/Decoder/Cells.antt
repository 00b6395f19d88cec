-- ===== src/Decoder/Cells.antt =====
-- nvlist/decode.go: what readPairs may be given to fill, as reflect.Value shows it, and how values are
-- put into it.
use go_zfs.Base.{Bool, true, false, ◌&&◌, Option, some, none, Bytes, if◌then◌else◌}
use go_zfs.Result.{Result, ok, panic, ◌>>=◌, not_assignable, nil_map_entry}
use go_zfs.Consts.{IntKind, int8, uint8, int16, uint16, int32, uint32, int64, uint64}
use go_zfs.Value.{
  Value, Entries, bool, integer, string, integers, bools, strings, nvlists, bytes_eq,
}
use go_zfs.Encoder.Collect.{split_tag, field_name}

mutual
  -- A variable, a field or an element of a map. It shows its type, so that a type is its zero value.
  pub data Cell : Type 0 where
    -- An empty interface, nil or with a value.
    any_cell : Option Value → Cell
    -- A bool, an integer, a string, or a slice of these or of `map[string]interface{}`.
    plain_cell : Value → Cell
    -- A `map[string]interface{}` that is not nil.
    any_map : Entries → Cell
    -- A nil map and a map, with string keys, and the zero value of their elements.
    nil_map : Cell → Cell
    map_cell : Cell → Cells → Cell
    struct_cell : Slots → Cell
    nil_ptr_cell : Cell
    ptr_cell : Cell → Cell
    -- Of a type that nothing read can be assigned to.
    other_cell : Cell

  pub data Cells : Type 0 where
    no_cells : Cells
    cell : Bytes → Cell → Cells → Cells

  -- The fields of a struct: the name, the content of the `nvlist` tag, and whether it is exported.
  pub data Slots : Type 0 where
    no_slots : Slots
    slot : Bytes → Bytes → Bool → Cell → Slots → Slots

unfoldable pub same_kind : IntKind → IntKind → Bool
same_kind int8 int8 = true
same_kind uint8 uint8 = true
same_kind int16 int16 = true
same_kind uint16 uint16 = true
same_kind int32 int32 = true
same_kind uint32 uint32 = true
same_kind int64 int64 = true
same_kind uint64 uint64 = true
same_kind _ _ = false

-- Whether two values that are read have the same type.
unfoldable pub same_type : Value → Value → Bool
unfolding same_kind
same_type (bool a) (bool b) = true
same_type (integer j a) (integer k b) = same_kind j k
same_type (string a) (string b) = true
same_type (integers j a) (integers k b) = same_kind j k
same_type (bools a) (bools b) = true
same_type (strings a) (strings b) = true
same_type (nvlists a) (nvlists b) = true
same_type _ _ = false

-- `Set`, which panics for a value that is not assignable to the type.
unfoldable pub assign : Cell → Value → Result Cell
unfolding same_type
assign (any_cell old) val = ok (any_cell (some val))
assign (plain_cell old) val =
    if same_type old val then ok (plain_cell val) else panic not_assignable
assign _ val = panic not_assignable

-- `SetMapIndex` of a cell.
unfoldable pub set_cell : Cells → Bytes → Cell → Cells
unfolding bytes_eq
set_cell no_cells k c = cell k c no_cells
set_cell (cell j b cs) k c = if bytes_eq j k then cell j c cs else cell j b (set_cell cs k c)

-- The name of a field in `structFieldByName`.
abbrev pub slot_name : Bytes → Bytes → Bytes
slot_name name tag = let (head, options) = split_tag tag in field_name head name

-- The field of that name, and whether it is exported. The last one of a name is in the map.
unfoldable pub find_slot : Bytes → Slots → Option (Bool × Cell)
unfolding split_tag field_name bytes_eq
find_slot name no_slots = none
find_slot name (slot field tag exported c ss) = elim (find_slot name ss) [
  | some found ↦ some found
  | none ↦ if bytes_eq (slot_name field tag) name then some (exported, c) else none
]

unfoldable pub set_slot : Bytes → Cell → Slots → Slots
unfolding find_slot split_tag field_name bytes_eq
set_slot name c no_slots = no_slots
set_slot name c (slot field tag exported old ss) = elim (find_slot name ss) [
  | some found ↦ slot field tag exported old (set_slot name c ss)
  | none ↦
      if bytes_eq (slot_name field tag) name
      then slot field tag exported c ss
      else slot field tag exported old ss
]

-- What the loop over pairs fills: a map that may be nil, with the zero value of its elements, or a
-- struct, which is addressable or not.
pub data Composite : Type 0 where
  in_map : Cell → Option Cells → Composite
  in_struct : Bool → Slots → Composite

-- The field of the struct that can be set.
unfoldable pub settable : Bytes → Bool → Slots → Option Cell
unfolding find_slot
settable name addressable ss = elim (find_slot name ss) [
  | some (exported, c) ↦ if addressable && exported then some c else none
  | none ↦ none
]

unfoldable pub set_entry : Cell → Option Cells → Bytes → Cell → Result Composite
unfolding set_cell
set_entry elt none name c = panic nil_map_entry
set_entry elt (some cs) name c = ok (in_map elt (some (set_cell cs name c)))

-- `field.Set` where the field can be set.
unfoldable pub set_field : Bool → Slots → Bytes → Value → Option Cell → Result Composite
unfolding assign set_slot
set_field addressable ss name val none = ok (in_struct addressable ss)
set_field addressable ss name val (some c) = do
  c' ← assign c val
  ok (in_struct addressable (set_slot name c' ss))

-- `setPrimitive`
unfoldable pub set_primitive_in : Composite → Bytes → Value → Result Composite
unfolding set_field assign settable set_entry
set_primitive_in (in_struct addressable ss) name val =
    set_field addressable ss name val (settable name addressable ss)
set_primitive_in (in_map elt cs) name val = do c ← assign elt val; set_entry elt cs name c
