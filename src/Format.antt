-- ===== src/Format.antt =====
-- The wire format as nvlist/doc.md and nvlist/types.h describe it: an abstract nvlist, its bytes in the
-- native encoding with the lowest byte first, and the nvlist that a Go value stands for.
use go_zfs.Base.{
  ℕ, zero, suc, ◌+◌, ◌*◌, ◌%◌, ◌^◌, Bool, true, List, [], ◌∷◌, ◌++◌, Option, some, none, Bytes,
  length, replicate, if◌then◌else◌,
}
use go_zfs.Wire.{low_bytes}
use go_zfs.Consts.{
  IntKind, NvType, width, nvtype_code, int_kind, type_boolean, type_double, type_string,
  type_boolean_array, type_string_array, type_nvlist, type_nvlist_array, nvtype_from_kind,
  nvtype_from_array_kind, nvlist_header_size,
}
use go_zfs.Value.{
  Value, Values, Entries, Fields, bool, integer, float64, string, integers, bools, strings, nvlists,
  mapping, other_map, struct, ptr, interface, no_values, value, no_entries, entry, no_fields, field,
}
use go_zfs.Encoder.{pad_size}
use go_zfs.Encoder.Collect.{unpack_val, split_tag, leaves_out, field_name}

mutual
  pub data NvValue : Type 0 where
    flag : NvValue
    number : IntKind → ℕ → NvValue
    double : ℕ → NvValue
    text : Bytes → NvValue
    numbers : IntKind → List ℕ → NvValue
    flags : List Bool → NvValue
    texts : List Bytes → NvValue
    list : NvList → NvValue
    lists : NvLists → NvValue

  -- Names and their values, in the order of the bytes.
  pub data NvList : Type 0 where
    end : NvList
    pair : Bytes → NvValue → NvList → NvList

  pub data NvLists : Type 0 where
    no_lists : NvLists
    list_and : NvList → NvLists → NvLists

unfoldable pub lists_length : NvLists → ℕ
lists_length no_lists = 0
lists_length (list_and l ls) = suc (lists_length ls)

abbrev pub zeros : ℕ → Bytes
zeros n = replicate n 0

-- The sixteen bytes in front of a pair.
unfoldable pub pair_header : ℕ → ℕ → ℕ → NvType → Bytes
unfolding low_bytes
pair_header size name_sz n t =
    low_bytes 4 size
    ++ (low_bytes 2 name_sz ++ (low_bytes 2 0 ++ (low_bytes 4 n ++ low_bytes 4 (nvtype_code t))))

-- The name with its null byte, up to a multiple of eight bytes of the pair.
unfoldable pub named : Bytes → Bytes
unfolding pad_size
named name = name ++ 0 ∷ zeros (pad_size (nvlist_header_size + (length name + 1)))

-- What follows the header of a pair.
unfoldable pub pair_body : Bytes → Bytes → Bytes
unfolding named pad_size
pair_body name payload =
    named name
    ++ (payload ++ zeros (pad_size (nvlist_header_size + (length (named name) + length payload))))

unfoldable pub pair_bytes : Bytes → ℕ → NvType → Bytes → Bytes
unfolding pair_header pair_body
pair_bytes name n t payload =
    pair_header ((nvlist_header_size + length (pair_body name payload)) % 2 ^ 32) (length name + 1)
      n t
    ++ pair_body name payload

-- A packed nvlist_t: version 0, unique names, no pointer and no flags.
unfoldable pub list_header : Bytes
unfolding low_bytes
list_header =
    low_bytes 4 0 ++ (low_bytes 4 1 ++ (low_bytes 8 0 ++ (low_bytes 4 0 ++ low_bytes 4 0)))

unfoldable pub list_headers : ℕ → Bytes
unfolding list_header
list_headers zero = []
list_headers (suc n) = list_header ++ list_headers n

unfoldable pub encode_ints : ℕ → List ℕ → Bytes
unfolding low_bytes
encode_ints n [] = []
encode_ints n (x ∷ xs) = low_bytes n x ++ encode_ints n xs

unfoldable pub encode_flags : List Bool → Bytes
unfolding low_bytes
encode_flags [] = []
encode_flags (b ∷ bs) = low_bytes 4 (if b then 1 else 0) ++ encode_flags bs

unfoldable pub encode_texts : List Bytes → Bytes
encode_texts [] = []
encode_texts (s ∷ ss) = (s ++ 0 ∷ []) ++ encode_texts ss

unfoldable mutual
  pub encode_value : Bytes → NvValue → Bytes
  encode_value name flag = pair_bytes name 0 type_boolean []
  encode_value name (number k n) =
      pair_bytes name 1 (nvtype_from_kind (int_kind k)) (low_bytes (width k) n)
  encode_value name (double n) = pair_bytes name 1 type_double (low_bytes 8 n)
  encode_value name (text s) = pair_bytes name 1 type_string (s ++ 0 ∷ [])
  encode_value name (numbers k xs) =
      pair_bytes name (length xs) (nvtype_from_array_kind (int_kind k)) (encode_ints (width k) xs)
  encode_value name (flags bs) = pair_bytes name (length bs) type_boolean_array (encode_flags bs)
  encode_value name (texts ss) =
      pair_bytes name (length ss) type_string_array (zeros (8 * length ss) ++ encode_texts ss)
  encode_value name (list l) = pair_bytes name 1 type_nvlist list_header ++ encode_list l
  encode_value name (lists ls) =
      pair_bytes name (lists_length ls) type_nvlist_array
        (zeros (8 * lists_length ls) ++ list_headers (lists_length ls))
      ++ encode_lists ls

  -- The pairs, and four zero bytes.
  pub encode_list : NvList → Bytes
  encode_list end = zeros 4
  encode_list (pair name v l) = encode_value name v ++ encode_list l

  pub encode_lists : NvLists → Bytes
  encode_lists no_lists = []
  encode_lists (list_and l ls) = encode_list l ++ encode_lists ls

-- The header of the whole: native encoding, lowest byte first, version 0 and unique names.
unfoldable pub encode : NvList → Bytes
unfolding encode_list low_bytes pair_bytes encode_ints encode_flags encode_texts list_header
    list_headers lists_length nvtype_from_kind nvtype_from_array_kind
encode l = (0 ∷ 1 ∷ 0 ∷ 0 ∷ (low_bytes 4 0 ++ low_bytes 4 1)) ++ encode_list l

abbrev pub add_pair : Bytes → Option NvValue → NvList → NvList
add_pair name none l = l
add_pair name (some v) l = pair name v l

-- What a Go value is written as; a false, a nil pointer and a nil interface are left out.
unfoldable mutual
  unfolding split_tag leaves_out unpack_val field_name

  pub nvvalue_of : Value → Option NvValue
  nvvalue_of (bool true) = some flag
  nvvalue_of (integer k n) = some (number k n)
  nvvalue_of (float64 n) = some (double n)
  nvvalue_of (string s) = some (text s)
  nvvalue_of (integers k xs) = some (numbers k xs)
  nvvalue_of (bools bs) = some (flags bs)
  nvvalue_of (strings ss) = some (texts ss)
  nvvalue_of (nvlists vs) = some (lists (nvlists_of vs))
  nvvalue_of (mapping es) = some (list (entries_list es))
  nvvalue_of (struct fs) = some (list (fields_list fs))
  nvvalue_of (other_map n) = some (list end)
  nvvalue_of (ptr v) = nvvalue_of v
  nvvalue_of (interface v) = nvvalue_of v
  nvvalue_of _ = none

  pub nvlist_of : Value → NvList
  nvlist_of (mapping es) = entries_list es
  nvlist_of (struct fs) = fields_list fs
  nvlist_of (ptr v) = nvlist_of v
  nvlist_of (interface v) = nvlist_of v
  nvlist_of _ = end

  pub entries_list : Entries → NvList
  entries_list no_entries = end
  entries_list (entry name v es) = add_pair name (nvvalue_of v) (entries_list es)

  -- The tag of a field may rename it or leave it out.
  pub fields_list : Fields → NvList
  fields_list no_fields = end
  fields_list (field name tag v fs) =
      let (head, options) = split_tag tag in
      let rest = fields_list fs in
      if leaves_out options (unpack_val v)
      then rest
      else add_pair (field_name head name) (nvvalue_of v) rest

  pub nvlists_of : Values → NvLists
  nvlists_of no_values = no_lists
  nvlists_of (value v vs) = list_and (nvlist_of v) (nvlists_of vs)
