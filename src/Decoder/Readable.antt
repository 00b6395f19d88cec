-- ===== src/Decoder/Readable.antt =====
-- nvlist/decode.go: the nvlists that readPairs accepts, and the map that it makes of one.
use go_zfs.Base.{
  ℕ, ◌+◌, ◌*◌, ◌^◌, ◌<◌, ◌≤◌, ◌≡◌, refl, true, [], ◌∷◌, ◌++◌, Option, some, none, Bytes, length,
  All, sym, append-nil,
}
use go_zfs.Wire.{low_bytes}
use go_zfs.Consts.{
  NvType, width, int_kind, type_boolean, type_double, type_string, type_boolean_array,
  type_string_array, type_nvlist, type_nvlist_array, nvtype_from_kind, nvtype_from_array_kind,
  nvlist_header_size,
}
use go_zfs.Value.{
  Value, Values, Entries, bool, integer, string, integers, bools, strings, nvlists, mapping,
  no_values, value, no_entries,
}
use go_zfs.Encoder.Encodable.{NulFree}
use go_zfs.Format.{
  NvValue, NvList, NvLists, flag, number, double, text, numbers, flags, texts, list, lists, end,
  pair, no_lists, list_and, lists_length, zeros, pair_body, pair_bytes, list_header, list_headers,
  encode_ints, encode_flags, encode_texts, encode_value, encode_list, encode_lists,
}
use go_zfs.Decoder.Pairs.{set_if}

-- The parts of an encoded pair.
unfoldable pub type_of : NvValue → NvType
type_of flag = type_boolean
type_of (number k n) = nvtype_from_kind (int_kind k)
type_of (double n) = type_double
type_of (text s) = type_string
type_of (numbers k xs) = nvtype_from_array_kind (int_kind k)
type_of (flags bs) = type_boolean_array
type_of (texts ss) = type_string_array
type_of (list l) = type_nvlist
type_of (lists ls) = type_nvlist_array

unfoldable pub elements : NvValue → ℕ
elements flag = 0
elements (numbers k xs) = length xs
elements (flags bs) = length bs
elements (texts ss) = length ss
elements (lists ls) = lists_length ls
elements _ = 1

unfoldable pub payload : NvValue → Bytes
payload flag = []
payload (number k n) = low_bytes (width k) n
payload (double n) = low_bytes 8 n
payload (text s) = s ++ 0 ∷ []
payload (numbers k xs) = encode_ints (width k) xs
payload (flags bs) = encode_flags bs
payload (texts ss) = zeros (8 * length ss) ++ encode_texts ss
payload (list l) = list_header
payload (lists ls) = zeros (8 * lists_length ls) ++ list_headers (lists_length ls)

-- The lists that follow the pair.
unfoldable pub children : NvValue → Bytes
children (list l) = encode_list l
children (lists ls) = encode_lists ls
children _ = []

pub encode_value-parts :
    (name : Bytes) (v : NvValue)
    → encode_value name v ≡ pair_bytes name (elements v) (type_of v) (payload v) ++ children v
unfolding encode_value elements type_of payload children
encode_value-parts name (list l) = refl
encode_value-parts name (lists ls) = refl
encode_value-parts name _ = sym (append-nil _)

abbrev pub pair_size : Bytes → NvValue → ℕ
pair_size name v = nvlist_header_size + length (pair_body name (payload v))

-- Names and pairs whose sizes fit the signed fields of the header, at most 65535 elements, and
-- texts without a null byte.
unfoldable mutual
  unfolding payload lists_length

  pub Readable : NvValue → Type 0
  Readable (number k n) = n < 256 ^ width k
  Readable (text s) = NulFree s
  Readable (numbers k xs) = (length xs ≤ 65535) × All (λ x. x < 256 ^ width k) xs
  Readable (flags bs) = length bs ≤ 65535
  Readable (texts ss) = (length ss ≤ 65535) × All NulFree ss
  Readable (list l) = ReadableList l
  Readable (lists ls) = (lists_length ls ≤ 65535) × ReadableLists ls
  Readable _ = Unit {0}

  pub ReadableList : NvList → Type 0
  ReadableList end = Unit {0}
  ReadableList (pair name v l) =
      (length name + 1 < 2 ^ 15) × (pair_size name v < 2 ^ 31) × Readable v × ReadableList l

  pub ReadableLists : NvLists → Type 0
  ReadableLists no_lists = Unit {0}
  ReadableLists (list_and l ls) = ReadableList l × ReadableLists ls

-- A double is skipped. A later pair of the same name replaces an earlier one.
unfoldable mutual
  pub value_of : NvValue → Option Value
  value_of flag = some (bool true)
  value_of (number k n) = some (integer k n)
  value_of (double n) = none
  value_of (text s) = some (string s)
  value_of (numbers k xs) = some (integers k xs)
  value_of (flags bs) = some (bools bs)
  value_of (texts ss) = some (strings ss)
  value_of (list l) = some (mapping (read_into no_entries l))
  value_of (lists ls) = some (nvlists (values_of ls))

  -- The pairs of the list, set one after the other in the map.
  pub read_into : Entries → NvList → Entries
  read_into m end = m
  read_into m (pair name v l) = read_into (set_if m name (value_of v)) l

  pub values_of : NvLists → Values
  values_of no_lists = no_values
  values_of (list_and l ls) = value (mapping (read_into no_entries l)) (values_of ls)
