-- ===== src/Tests.antt =====
-- nvlist: runs of the package on small inputs.
use go_zfs.Base.{◌≡◌, refl, true, [], ◌∷◌, ◌++◌, none, Bytes, arith, false}
use go_zfs.Result.{ok, err, invalid_value, ◌>>=◌}
use go_zfs.Consts.{type_nvlist, nvtype_from_kind, uint16, int32, uint64}
use go_zfs.Value.{
  bytes_eq, interface_slice, Value, Fields, struct, field, no_fields, strings, Entries, bool,
  integer, string, integers, mapping, ptr, interface, no_entries, entry, bytes,
}
use go_zfs.Encoder.Pairs.{marshal}
use go_zfs.Encoder.Encodable.{Encodable, EncodableEntries}
use go_zfs.Encoder.Implements.{marshal-encode, whole_header}
use go_zfs.Encoder.Implements.Swallowed.{refused, pairs_bytes, marshal-swallowed}
use go_zfs.Encoder.Safety.Total.{EndsUnlessInterfaces, marshal-EndsUnlessInterfaces}
use go_zfs.Format.{
  encode_texts, NvList, list, pair, fields_list, nvlist_of, entries_list, encode, pair_body,
  encode_ints, list_header, pair_bytes,
}
use go_zfs.Decoder.Readable.{ReadableList, read_into, payload, value_of}
use go_zfs.Wire.{ByteOrder, big, put, get, get-put, low_bytes}
use go_zfs.Decoder.Implements.{unmarshal-encode}
use go_zfs.RoundTrip.{unmarshal-marshal}
use go_zfs.RoundTrip.Maps.{EntriesSurvive, Fresh, Apart, append, unmarshal-marshal_same}
use go_zfs.Decoder.Pairs.{unmarshal}
use go_zfs.Decoder.Safety.Values.{Ends}
use go_zfs.Decoder.Safety.Total.{unmarshal-Ends}
use go_zfs.Decoder.Cells.{Cell, in_struct, struct_cell, ptr_cell, settable, set_primitive_in}
use go_zfs.Decoder.Targets.{unmarshal_into}
use go_zfs.Decoder.ByValue.{unmarshal_into-by_value}
use go_zfs.Decoder.Fill.Into.{
  fill_elem, fill_pointed, fill_nested, fill_cell, SettledElem, SettledPointed, SettledNested,
  SettledValue, Settled, SettledCell,
}
use go_zfs.Decoder.Fill.{unmarshal_into-fill_cell}
use go_zfs.Decoder.Fill.Missing.{unmarshal_into-missing}
use go_zfs.Decoder.Fuzz.{fuzz, fuzz_never_accepts}
use go_zfs.Decoder.Safety.Targets.{EndsUnlessMisfit, unmarshal_into-EndsUnlessMisfit}
use go_zfs.Encoder.Collect.{split_tag, is_empty_value, field_name}
use go_zfs.RoundTrip.Structs.Targets.{zero_slots, slots_of, FieldsSurvive}
use go_zfs.RoundTrip.Structs.{unmarshal_into-marshal}

abbrev port : Value
port = interface (integer uint16 513)

abbrev inner : Entries
inner = entry (bytes "x") (interface (string (bytes "hi"))) no_entries

abbrev settings : Entries
settings = entry (bytes "p") port (
    entry (bytes "sub") (interface (mapping inner))
      (entry (bytes "ns") (interface (integers int32 (1 ∷ 2 ∷ []))) no_entries))

abbrev config : Value
config = ptr (mapping settings)

-- The size, the name with its null byte, no element and type 1; then the trailer.
abbrev flag_bytes : Bytes
flag_bytes =
    0 ∷ 1 ∷ 0 ∷ 0 ∷ 0 ∷ 0 ∷ 0 ∷ 0 ∷ 1 ∷ 0 ∷ 0 ∷ 0 ∷ 24 ∷ 0 ∷ 0 ∷ 0 ∷ 2 ∷ 0 ∷ 0 ∷ 0 ∷ 0 ∷ 0 ∷ 0 ∷ 0
    ∷ 1 ∷ 0 ∷ 0 ∷ 0 ∷ 97 ∷ 0 ∷ 0 ∷ 0 ∷ 0 ∷ 0 ∷ 0 ∷ 0 ∷ 0 ∷ 0 ∷ 0 ∷ 0 ∷ []

marshal_flag : marshal (mapping (entry (bytes "a") (bool true) no_entries)) ≡ ok flag_bytes
unfolding marshal go_zfs.Wire.low_bytes
marshal_flag = refl

unmarshal_flag :
    unmarshal flag_bytes no_entries ≡ ok (entry (bytes "a") (interface (bool true)) no_entries)
unfolding unmarshal go_zfs.Wire.of_low_bytes
unmarshal_flag = refl

config-Encodable : Encodable config
unfolding Encodable
config-Encodable = ground arith

marshal-encode_example : marshal config ≡ ok (encode (nvlist_of config))
marshal-encode_example = marshal-encode config config-Encodable tt

settings-Readable : ReadableList (entries_list settings)
unfolding ReadableList entries_list pair_body payload low_bytes encode_ints list_header
    nvtype_from_kind
settings-Readable = ground arith

unmarshal-encode_example :
    unmarshal (encode (entries_list settings) ++ 7 ∷ []) no_entries
    ≡ ok (read_into no_entries (entries_list settings))
unmarshal-encode_example =
    unmarshal-encode (entries_list settings) (7 ∷ []) no_entries settings-Readable

settings-Encodable : Encodable (mapping settings)
unfolding Encodable
settings-Encodable = ground arith

settings-EntriesSurvive : EntriesSurvive settings
unfolding EntriesSurvive Fresh bytes_eq
settings-EntriesSurvive = ground arith

abbrev old : Entries
old = entry (bytes "old") (bool false) no_entries

settings-Apart : Apart old settings
unfolding Apart Fresh bytes_eq
settings-Apart = ground arith

unmarshal-marshal_example :
    (marshal config >>= λ bs. unmarshal bs old) ≡ ok (read_into old (nvlist_of config))
unfolding nvlist_of
unmarshal-marshal_example = unmarshal-marshal config old config-Encodable tt settings-Readable

unmarshal-marshal_same_example :
    (marshal (mapping settings) >>= λ bs. unmarshal bs old) ≡ ok (append old settings)
unmarshal-marshal_same_example =
    unmarshal-marshal_same settings old settings-Encodable settings-Readable settings-EntriesSurvive
      settings-Apart

unmarshal-Ends_example : Ends (unmarshal flag_bytes no_entries)
unmarshal-Ends_example = unmarshal-Ends flag_bytes no_entries

-- A renamed field, one that is left out while it is empty, one that is not written since it is false,
-- and a struct.
abbrev stat : Fields
stat =
    field (bytes "Ops") [] (integers uint64 (3 ∷ 4 ∷ []))
      (field (bytes "Kind") (bytes "type") (string (bytes "disk")) no_fields)

abbrev vdev : Fields
vdev = field (bytes "Path") (bytes "path") (string (bytes "a")) (
    field (bytes "Id") (bytes "id,omitempty") (integer uint64 0) (
      field (bytes "Stat") (bytes "stats") (struct stat) (
        field (bytes "Log") [] (bool false) (
          field (bytes "Names") (bytes "names") (strings (bytes "x" ∷ bytes "y" ∷ [])) no_fields))))

abbrev target : Cell
target = ptr_cell (struct_cell (zero_slots vdev))

vdev-FieldsSurvive : FieldsSurvive vdev
unfolding FieldsSurvive bytes_eq split_tag field_name
vdev-FieldsSurvive = ground arith

vdev-Encodable : Encodable (struct vdev)
unfolding Encodable split_tag bytes_eq is_empty_value field_name
vdev-Encodable = ground arith

vdev-Readable : ReadableList (fields_list vdev)
unfolding ReadableList fields_list pair_body payload low_bytes encode_ints encode_texts list_header
    nvtype_from_kind split_tag bytes_eq is_empty_value field_name
vdev-Readable = ground arith

vdev-SettledCell : SettledCell target (fields_list vdev)
unfolding SettledCell SettledPointed SettledElem Settled SettledValue SettledNested fill_nested
    fill_pointed fill_elem fields_list zero_slots split_tag bytes_eq is_empty_value field_name
    set_primitive_in settable
vdev-SettledCell = ground arith

unmarshal_into-marshal_example :
    (marshal (struct vdev) >>= λ bs. unmarshal_into bs target)
    ≡ ok (ptr_cell (struct_cell (slots_of vdev)))
unmarshal_into-marshal_example =
    unmarshal_into-marshal vdev vdev-FieldsSurvive vdev-Encodable vdev-Readable

unmarshal_into-fill_cell_example :
    unmarshal_into (encode (fields_list vdev) ++ 7 ∷ []) target
    ≡ fill_cell target (fields_list vdev)
unmarshal_into-fill_cell_example =
    unmarshal_into-fill_cell (fields_list vdev) (7 ∷ []) target vdev-Readable vdev-SettledCell

unmarshal_into-EndsUnlessMisfit_example : EndsUnlessMisfit (unmarshal_into flag_bytes target)
unmarshal_into-EndsUnlessMisfit_example = unmarshal_into-EndsUnlessMisfit flag_bytes target

abbrev stat_cell : Cell
stat_cell = struct_cell (zero_slots stat)

stat-Readable : ReadableList (fields_list stat)
unfolding ReadableList fields_list pair_body payload low_bytes encode_ints encode_texts list_header
    nvtype_from_kind split_tag bytes_eq is_empty_value field_name
stat-Readable = ground arith

stat-SettledCell : SettledCell stat_cell (fields_list stat)
unfolding SettledCell SettledPointed SettledElem Settled SettledValue fields_list zero_slots
    split_tag bytes_eq is_empty_value field_name set_primitive_in
stat-SettledCell = ground arith

-- The pairs are not set in a struct that is given by value.
by_value_given : unmarshal_into (encode (fields_list stat) ++ []) stat_cell ≡ ok stat_cell
unfolding fill_cell zero_slots fields_list split_tag bytes_eq is_empty_value field_name
    set_primitive_in value_of
by_value_given =
    unmarshal_into-fill_cell (fields_list stat) [] stat_cell stat-Readable stat-SettledCell

unmarshal_into-by_value_example : stat_cell ≡ stat_cell
unmarshal_into-by_value_example =
    unmarshal_into-by_value (zero_slots stat) (encode (fields_list stat) ++ []) stat_cell
      by_value_given

-- A value that cannot be encoded.
abbrev unencodable : Value
unencodable = mapping (entry (bytes "xs") (interface (interface_slice 2)) no_entries)

marshal-EndsUnlessInterfaces_example : EndsUnlessInterfaces (marshal unencodable)
marshal-EndsUnlessInterfaces_example = marshal-EndsUnlessInterfaces unencodable

fuzz_never_accepts_example : fuzz flag_bytes ≡ ok 0
fuzz_never_accepts_example = fuzz_never_accepts flag_bytes

-- The fields of the target, with a nvlist that has none of its own in front.
abbrev newer : NvList
newer = pair (bytes "extra") (list (fields_list stat)) (fields_list stat)

newer-Readable : ReadableList newer
unfolding ReadableList fields_list pair_body payload low_bytes encode_ints encode_texts list_header
    nvtype_from_kind split_tag bytes_eq is_empty_value field_name
newer-Readable = ground arith

newer_missing : settable (bytes "extra") true (zero_slots stat) ≡ none
unfolding settable zero_slots split_tag bytes_eq field_name
newer_missing = refl

newer-Settled : Settled (fields_list stat) (in_struct true (zero_slots stat))
unfolding Settled SettledValue fields_list zero_slots split_tag bytes_eq is_empty_value field_name
    set_primitive_in value_of
newer-Settled = ground arith

unmarshal_into-missing_example :
    unmarshal_into (encode newer ++ 7 ∷ []) (ptr_cell stat_cell)
    ≡ fill_cell (ptr_cell stat_cell) (fields_list stat)
unmarshal_into-missing_example =
    unmarshal_into-missing (zero_slots stat) (bytes "extra") (fields_list stat) (fields_list stat)
      newer_missing newer-Readable newer-Settled (7 ∷ [])

-- `first` can be encoded, and `last` is not there.
marshal-swallowed_example :
    (marshal (refused 0) ≡ err invalid_value)
    × (marshal (
          mapping (
            append (entry (bytes "first") port no_entries) (
              entry
                (bytes "inner")
                (interface (refused 0))
                (entry (bytes "last") port no_entries))))
        ≡ ok (
            whole_header
            ++ (pairs_bytes (entries_list (entry (bytes "first") port no_entries))
                ++ pair_bytes (bytes "inner") 1 type_nvlist list_header)))
unfolding EncodableEntries
marshal-swallowed_example =
    marshal-swallowed (entry (bytes "first") port no_entries) (entry (bytes "last") port no_entries)
      (bytes "inner") 0 (ground arith) (ground arith)
