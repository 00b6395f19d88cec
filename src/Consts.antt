-- ===== src/Consts.antt =====
-- nvlist/consts.go and nvlist/types.go: the type codes of the wire format, the code that a Go kind is
-- written with, and the header of a pair.
use go_zfs.Base.{ℕ, List, [], ◌∷◌, some, none, get_elem?}

-- The integer kinds of package reflect that have a fixed width.
pub data IntKind : Type 0 where
  int8 uint8 int16 uint16 int32 uint32 int64 uint64 : IntKind

-- The bytes that encoding/binary takes for one.
abbrev pub width : IntKind → ℕ
width int8 = 1
width uint8 = 1
width int16 = 2
width uint16 = 2
width int32 = 4
width uint32 = 4
width int64 = 8
width uint64 = 8

-- reflect.Kind, with all that the package has no case for as one.
pub data Kind : Type 0 where
  bool_kind : Kind
  int_kind : IntKind → Kind
  float64_kind map_kind string_kind struct_kind other_kind : Kind

-- A uint32 outside the list of constants is `type_code`.
pub data NvType : Type 0 where
  type_unknown type_boolean type_byte type_int16 type_uint16 type_int32 type_uint32 : NvType
  type_int64 type_uint64 type_string type_byte_array type_int16_array type_uint16_array : NvType
  type_int32_array type_uint32_array type_int64_array type_uint64_array : NvType
  type_string_array type_hrtime type_nvlist type_nvlist_array type_boolean_value : NvType
  type_int8 type_uint8 type_boolean_array type_int8_array type_uint8_array type_double : NvType
  type_code : ℕ → NvType

abbrev pub nvtype_code : NvType → ℕ
nvtype_code type_unknown = 0
nvtype_code type_boolean = 1
nvtype_code type_byte = 2
nvtype_code type_int16 = 3
nvtype_code type_uint16 = 4
nvtype_code type_int32 = 5
nvtype_code type_uint32 = 6
nvtype_code type_int64 = 7
nvtype_code type_uint64 = 8
nvtype_code type_string = 9
nvtype_code type_byte_array = 10
nvtype_code type_int16_array = 11
nvtype_code type_uint16_array = 12
nvtype_code type_int32_array = 13
nvtype_code type_uint32_array = 14
nvtype_code type_int64_array = 15
nvtype_code type_uint64_array = 16
nvtype_code type_string_array = 17
nvtype_code type_hrtime = 18
nvtype_code type_nvlist = 19
nvtype_code type_nvlist_array = 20
nvtype_code type_boolean_value = 21
nvtype_code type_int8 = 22
nvtype_code type_uint8 = 23
nvtype_code type_boolean_array = 24
nvtype_code type_int8_array = 25
nvtype_code type_uint8_array = 26
nvtype_code type_double = 27
nvtype_code (type_code n) = n

-- The constants in the order in which `iota` numbers them.
abbrev nvtypes : List NvType
nvtypes =
    type_unknown ∷ type_boolean ∷ type_byte ∷ type_int16 ∷ type_uint16 ∷ type_int32 ∷ type_uint32
    ∷ type_int64 ∷ type_uint64 ∷ type_string ∷ type_byte_array ∷ type_int16_array
    ∷ type_uint16_array ∷ type_int32_array ∷ type_uint32_array ∷ type_int64_array
    ∷ type_uint64_array ∷ type_string_array ∷ type_hrtime ∷ type_nvlist ∷ type_nvlist_array
    ∷ type_boolean_value ∷ type_int8 ∷ type_uint8 ∷ type_boolean_array ∷ type_int8_array
    ∷ type_uint8_array ∷ type_double ∷ []

-- The constant that a uint32 is.
unfoldable pub nvtype_of : ℕ → NvType
nvtype_of n = elim (get_elem? nvtypes n) [ some t ↦ t | none ↦ type_code n ]

-- `nvpair` of nvlist/types.go. A signed field is its bit pattern.
pub record NvPair : Type 0 where
  pub size : ℕ
  pub name_sz : ℕ
  pub reserve : ℕ
  pub value_elem : ℕ
  pub type : NvType

abbrev pub nvlist_header_size : ℕ
nvlist_header_size = 16

abbrev pub unique_name_flag : ℕ
unique_name_flag = 1

unfoldable pub nvtype_from_kind : Kind → NvType
nvtype_from_kind bool_kind = type_boolean_value
nvtype_from_kind (int_kind int8) = type_int8
nvtype_from_kind (int_kind int16) = type_int16
nvtype_from_kind (int_kind int32) = type_int32
nvtype_from_kind (int_kind int64) = type_int64
nvtype_from_kind (int_kind uint8) = type_byte
nvtype_from_kind (int_kind uint16) = type_uint16
nvtype_from_kind (int_kind uint32) = type_uint32
nvtype_from_kind (int_kind uint64) = type_uint64
nvtype_from_kind float64_kind = type_double
nvtype_from_kind map_kind = type_nvlist
nvtype_from_kind string_kind = type_string
nvtype_from_kind struct_kind = type_nvlist
nvtype_from_kind other_kind = type_unknown

unfoldable pub nvtype_from_array_kind : Kind → NvType
nvtype_from_array_kind bool_kind = type_boolean_array
nvtype_from_array_kind (int_kind int8) = type_int8_array
nvtype_from_array_kind (int_kind int16) = type_int16_array
nvtype_from_array_kind (int_kind int32) = type_int32_array
nvtype_from_array_kind (int_kind int64) = type_int64_array
nvtype_from_array_kind (int_kind uint8) = type_byte_array
nvtype_from_array_kind (int_kind uint16) = type_uint16_array
nvtype_from_array_kind (int_kind uint32) = type_uint32_array
nvtype_from_array_kind (int_kind uint64) = type_uint64_array
nvtype_from_array_kind map_kind = type_nvlist_array
nvtype_from_array_kind string_kind = type_string_array
nvtype_from_array_kind struct_kind = type_nvlist_array
nvtype_from_array_kind float64_kind = type_unknown
nvtype_from_array_kind other_kind = type_unknown
