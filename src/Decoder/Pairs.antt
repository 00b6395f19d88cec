-- ===== src/Decoder/Pairs.antt =====
-- nvlist/decode.go: readPairs into a `map[string]interface{}`, and Unmarshal on top of it.
use go_zfs.Base.{
  ℕ, zero, suc, ◌+◌, ◌-◌, ◌*◌, ◌^◌, Bool, true, false, ◌||◌, List, [], ◌∷◌, Option, some, none,
  Bytes, length, take, drop, ltb, leb, ◌==◌, if◌then◌else◌,
}
use go_zfs.Wire.{ByteOrder, get}
use go_zfs.Result.{Result, ok, err, out_of_fuel, ◌>>=◌, invalid_data}
use go_zfs.Consts.{
  IntKind, int8, uint8, int16, uint16, int32, uint32, int64, uint64, width, NvPair, NvType,
  nvtype_of, type_unknown, type_boolean, type_byte, type_int16, type_uint16, type_int32,
  type_uint32, type_int64, type_uint64, type_string, type_byte_array, type_int16_array,
  type_uint16_array, type_int32_array, type_uint32_array, type_int64_array, type_uint64_array,
  type_string_array, type_hrtime, type_nvlist, type_nvlist_array, type_boolean_value, type_int8,
  type_uint8, type_boolean_array, type_int8_array, type_uint8_array, type_double, type_code,
}
use go_zfs.Value.{
  Value, Values, Entries, bool, integer, string, integers, bools, strings, nvlists, mapping,
  interface, no_values, value, no_entries, entry, bytes_eq,
}
use go_zfs.Decoder.Slices.{read_full}
use go_zfs.Decoder.Reader.{Reader, native, xdr, read_nv_header, new_reader}
use go_zfs.Decoder.Reader
use go_zfs.Decoder.PairReader.{
  PairReader, read_byte, read_bytes, read_n, read_int, skip_to_align, skip_n,
}
use go_zfs.Decoder.PairReader

-- `SetMapIndex` with a string key.
unfoldable pub set_map_index : Entries → Bytes → Value → Entries
unfolding bytes_eq
set_map_index no_entries k v = entry k v no_entries
set_map_index (entry j u es) k v =
    if bytes_eq j k then entry j v es else entry j u (set_map_index es k v)

-- `setPrimitive`; an element of the map is an interface value.
unfoldable pub set_primitive : Entries → Bytes → Value → Entries
unfolding set_map_index
set_primitive m name val = set_map_index m name (interface val)

-- The size of the next pair and a reader for the rest of it; `none` is the end of the list.
-- The first reader goes on to what follows the pair.
unfoldable pub next_pair : Reader → Result (Option PairReader × Reader)
next_pair r = do
  (size, r') ← Reader.read_int 4 r
  if leb (2 ^ 31) size
      then err invalid_data
      else if size == 0
      then ok (none, r')
      else if ltb (length r.nvlist) (size + r'.current_byte)
      then err invalid_data
      else (let after = record r' { current_byte = r'.current_byte + size - 4 } in
          let p : PairReader = record {
            nvlist = r';
            start_byte = r.current_byte;
            size_bytes = size;
            current_byte = r.current_byte + 4;
          } in
          elim r.encoding [
            | native ↦ ok (some p, after)
            | xdr ↦ ok (some p, Reader.skip_n 4 after)
          ])

-- The name of a pair, its header, and a reader that stands at its value.
pub record Pair : Type 0 where
  pub name : Bytes
  pub nvp : NvPair
  pub reader : PairReader

unfoldable pub read_pair_header : PairReader → Result Pair
read_pair_header p = do
  (name_sz, p) ← read_int 2 p
  if name_sz == 0 || leb (2 ^ 15) name_sz then err invalid_data else (do
    (reserve, p) ← read_int 2 p
    (value_elem, p) ← read_int 4 p
    if leb (2 ^ 31) value_elem
        then err invalid_data
        else if ltb 65535 value_elem
        then err invalid_data
        else (do
          (type, p) ← read_int 4 p
          (name_raw, p) ← read_n name_sz p
          ok (record {
            name = take (length name_raw - 1) name_raw;
            nvp = record {
              size = p.size_bytes;
              name_sz = name_sz;
              reserve = reserve;
              value_elem = value_elem;
              type = nvtype_of type;
            };
            reader = skip_to_align p;
          })))

unfoldable pub read_integer : IntKind → PairReader → Result Value
read_integer k p = do (n, p) ← read_int (width k) p; ok (integer k n)

-- The numbers in `count` times `n` bytes.
unfoldable pub split_ints : ByteOrder → ℕ → ℕ → Bytes → List ℕ
unfolding get
split_ints o n zero bs = []
split_ints o n (suc count) bs = get o (take n bs) ∷ split_ints o n count (drop n bs)

-- `binary.Read` into a slice of `count` integers.
unfoldable pub read_integers : IntKind → ℕ → PairReader → Result Value
read_integers k count p = do
  (xs, p) ←
      PairReader.read_in (λ o. split_ints o (width k) count) p.nvlist.endianness (count * width k) p
  ok (integers k xs)

-- The `switch tmp`.
unfoldable pub bool_of : ℕ → Result Bool
bool_of n = if n == 0 then ok false else if n == 1 then ok true else err invalid_data

unfoldable pub read_bool : PairReader → Result (Bool × PairReader)
read_bool p = do (tmp, p) ← read_int 4 p; b ← bool_of tmp; ok (b, p)

unfoldable pub read_bools : ℕ → PairReader → Result (List Bool)
read_bools zero p = ok []
read_bools (suc n) p = do (b, p) ← read_bool p; bs ← read_bools n p; ok (b ∷ bs)

unfoldable pub read_string : PairReader → Result (Bytes × PairReader)
read_string p = do (raw, p) ← read_bytes 0 p; ok (take (length raw - 1) raw, p)

unfoldable pub read_strings : ℕ → PairReader → Result (List Bytes)
read_strings zero p = ok []
read_strings (suc n) p = do (s, p) ← read_string p; ss ← read_strings n p; ok (s ∷ ss)

-- The cases of `switch nvp.Type` that call `setPrimitive`, with the value that they give it; `none`
-- where the switch has no case.
unfoldable pub read_primitive : NvType → ℕ → PairReader → Result (Option Value)
read_primitive type_unknown n p = err invalid_data
read_primitive type_boolean n p = ok (some (bool true))
read_primitive type_int16 n p = do v ← read_integer int16 p; ok (some v)
read_primitive type_uint16 n p = do v ← read_integer uint16 p; ok (some v)
read_primitive type_int32 n p = do v ← read_integer int32 p; ok (some v)
read_primitive type_uint32 n p = do v ← read_integer uint32 p; ok (some v)
read_primitive type_int64 n p = do v ← read_integer int64 p; ok (some v)
read_primitive type_uint64 n p = do v ← read_integer uint64 p; ok (some v)
read_primitive type_int8 n p = do v ← read_integer int8 p; ok (some v)
read_primitive type_uint8 n p = do v ← read_integer uint8 p; ok (some v)
read_primitive type_byte n p = do (b, p) ← read_byte p; ok (some (integer uint8 b))
read_primitive type_string n p = do (s, p) ← read_string p; ok (some (string s))
read_primitive type_boolean_value n p = do (b, p) ← read_bool p; ok (some (bool b))
read_primitive type_int16_array n p = do v ← read_integers int16 n p; ok (some v)
read_primitive type_uint16_array n p = do v ← read_integers uint16 n p; ok (some v)
read_primitive type_int32_array n p = do v ← read_integers int32 n p; ok (some v)
read_primitive type_uint32_array n p = do v ← read_integers uint32 n p; ok (some v)
read_primitive type_int64_array n p = do v ← read_integers int64 n p; ok (some v)
read_primitive type_uint64_array n p = do v ← read_integers uint64 n p; ok (some v)
read_primitive type_int8_array n p = do v ← read_integers int8 n p; ok (some v)
read_primitive type_uint8_array n p = do v ← read_integers uint8 n p; ok (some v)
read_primitive type_byte_array n p = do (bs, p) ← read_n n p; ok (some (integers uint8 bs))
read_primitive type_string_array n p = do
  ss ← read_strings n (skip_n (8 * n) p)
  ok (some (strings ss))
read_primitive type_boolean_array n p = do bs ← read_bools n p; ok (some (bools bs))
read_primitive type_hrtime n p = ok none
read_primitive type_double n p = ok none
read_primitive (type_code c) n p = ok none
-- These two are the cases of `read_value`.
read_primitive type_nvlist n p = ok none
read_primitive type_nvlist_array n p = ok none

abbrev pub Loop : Type 0
Loop = Entries → Reader → Result (Entries × Reader)

-- `readPairs` of each of `n` new maps; `rec` is `readPairs`.
unfoldable pub read_maps : Loop → ℕ → Reader → Result (Values × Reader)
read_maps rec zero r = ok (no_values, r)
read_maps rec (suc n) r = do
  (m, r) ← rec no_entries r
  (vs, r) ← read_maps rec n r
  ok (value (mapping m) vs, r)

abbrev pub set_if : Entries → Bytes → Option Value → Entries
set_if m name none = m
set_if m name (some v) = set_primitive m name v

-- A case of the switch that looks at the pair alone.
unfoldable pub read_plain :
    Entries → Reader → Bytes → NvType → ℕ → PairReader → Result (Entries × Reader)
read_plain m r name t n p = do v ← read_primitive t n p; ok (set_if m name v, r)

-- The `switch nvp.Type`: the map with the pair in it, and the reader behind the pair and all that
-- belongs to it.
unfoldable pub read_value :
    Loop → Entries → Reader → Bytes → NvType → ℕ → PairReader → Result (Entries × Reader)
read_value rec m r name type_nvlist n p = do
  (sub, r) ← rec no_entries r
  ok (set_map_index m name (interface (mapping sub)), r)
read_value rec m r name type_nvlist_array n p = do
  (vs, r) ← read_maps rec n r
  ok (set_map_index m name (interface (nvlists vs)), r)
read_value rec m r name t n p = read_plain m r name t n p

unfoldable pub read_pair : Loop → Entries → Reader → PairReader → Result (Entries × Reader)
read_pair rec m r p = do
  pair ← read_pair_header p
  read_value rec m r pair.name pair.nvp.type pair.nvp.value_elem pair.reader

-- A unit of fuel for each round of the loop and each nested call.
unfoldable pub read_pairs : ℕ → Loop
read_pairs zero m r = out_of_fuel
read_pairs (suc fuel) m r = do
  (next, r) ← next_pair r
  elim next [
    | none ↦ ok (m, r)
    | some p ↦ do (m, r) ← read_pair (read_pairs fuel) m r p; read_pairs fuel m r
  ]

-- `Unmarshal(data, val)` for the map `val`, or a new one for an empty `interface{}`.
unfoldable pub unmarshal : Bytes → Entries → Result Entries
unfolding read_nv_header read_pairs next_pair read_pair read_pair_header read_value read_plain
    read_maps set_primitive read_primitive read_integer read_integers split_ints read_bool bool_of
    read_bools read_string read_strings nvtype_of Reader.read_byte Reader.read Reader.read_int
    Reader.skip_n Reader.set_encoding Reader.set_endianness PairReader.read read_int read_n
    read_byte read_bytes skip_to_align skip_n read_full get
unmarshal input m = do
  r ← read_nv_header (new_reader input)
  (m, r) ← read_pairs (suc (length input)) m r
  ok m
