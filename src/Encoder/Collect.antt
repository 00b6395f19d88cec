-- ===== src/Encoder/Collect.antt =====
-- nvlist/encoder.go: the values behind pointers and interfaces, and the names and values that
-- writeNvPairs collects before it writes them.
use go_zfs.Base.{
  zero, ◌^◌, Bool, true, false, not, ◌||◌, List, [], ◌∷◌, Option, some, none, Bytes, ◌==◌,
  if◌then◌else◌,
}
use go_zfs.Value.{
  Value, Entries, Fields, bool, integer, float64, string, integers, bools, strings, nvlists,
  interface_slice, other_slice, mapping, other_map, struct, ptr, interface, nil_ptr, nil_interface,
  other, no_values, no_entries, entry, no_fields, field, bytes, bytes_eq,
}

unfoldable pub unpack_interface : Value → Option Value
unpack_interface (interface v) = some v
unpack_interface nil_interface = none
unpack_interface v = some v

-- `none` is the zero reflect.Value, for which `IsValid` is false.
unfoldable pub unpack_val : Value → Option Value
unfolding unpack_interface
unpack_val (ptr v) = unpack_interface v
unpack_val nil_ptr = none
unpack_val v = unpack_interface v

unfoldable pub is_empty_value : Option Value → Bool
is_empty_value (some (integers k [])) = true
is_empty_value (some (bools [])) = true
is_empty_value (some (strings [])) = true
is_empty_value (some (nvlists no_values)) = true
is_empty_value (some (interface_slice n)) = n == 0
is_empty_value (some (other_slice n)) = n == 0
is_empty_value (some (mapping no_entries)) = true
is_empty_value (some (other_map n)) = n == 0
is_empty_value (some (string [])) = true
is_empty_value (some (bool b)) = not b
is_empty_value (some (integer k n)) = n == 0
-- Both zeros of a float64 equal 0.
is_empty_value (some (float64 n)) = n == 0 || n == 2 ^ 63
is_empty_value (some nil_ptr) = true
is_empty_value (some nil_interface) = true
is_empty_value (some (other zero?)) = zero?
is_empty_value _ = false

-- `strings.Split(s, ",")`: the first part, and the parts behind it.
unfoldable pub split_tag : Bytes → Bytes × List Bytes
split_tag [] = ([], [])
split_tag (c ∷ s) =
    let (name, more) = split_tag s in if c == b',' then ([], name ∷ more) else (c ∷ name, more)

-- The `switch tags[1]`: whether the field is left out.
unfoldable pub leaves_out : List Bytes → Option Value → Bool
unfolding bytes_eq is_empty_value
leaves_out [] val = false
leaves_out (option ∷ more) val =
    if bytes_eq option (bytes "omitempty") then is_empty_value val else bytes_eq option (bytes "ro")

unfoldable pub field_name : Bytes → Bytes → Bytes
field_name [] name = name
field_name (c ∷ tag) name = c ∷ tag

abbrev pub Pairs : Type 0
Pairs = List (Bytes × Value)

abbrev pub add_valid : Bytes → Option Value → Pairs → Pairs
add_valid name none pairs = pairs
add_valid name (some val) pairs = (name, val) ∷ pairs

unfoldable pub collect_entries : Entries → Pairs
unfolding unpack_val
collect_entries no_entries = []
collect_entries (entry key v es) = add_valid key (unpack_val v) (collect_entries es)

unfoldable pub collect_fields : Fields → Pairs
unfolding unpack_val split_tag leaves_out field_name
collect_fields no_fields = []
collect_fields (field name tag v fs) =
    let (head, options) = split_tag tag in
    let rest = collect_fields fs in
    if leaves_out options (unpack_val v)
    then rest
    else add_valid (field_name head name) (unpack_val v) rest

-- The names and values that `writeNvPairs` writes; `none` is ErrInvalidValue.
unfoldable pub collect : Value → Option Pairs
unfolding collect_entries collect_fields
collect (mapping es) = some (collect_entries es)
collect (other_map zero) = some []
collect (struct fs) = some (collect_fields fs)
collect _ = none
