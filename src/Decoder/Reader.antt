-- ===== src/Decoder/Reader.antt =====
-- nvlist/decode.go: nvlistReader, its methods and the header.
use go_zfs.Base.{ℕ, ◌+◌, ◌-◌, Option, some, none, Bytes, length, ltb, ◌==◌, if◌then◌else◌}
use go_zfs.Wire.{ByteOrder, big, little, get}
use go_zfs.Result.{
  Result, ok, err, panic, ◌>>=◌, invalid_encoding, invalid_endianess, invalid_data, nil_byte_order,
}
use go_zfs.Decoder.Slices.{byte_at, copy_loop, read_full}

pub data Encoding : Type 0 where
  native xdr : Encoding

-- A nil `endianness` is `none`.
pub record Reader : Type 0 where
  pub nvlist : Bytes
  pub current_byte : ℕ
  pub endianness : Option ByteOrder
  pub encoding : Encoding
  pub flags : ℕ
  pub version : ℕ

unfoldable pub read_byte : Reader → Result (ℕ × Reader)
unfolding byte_at
read_byte r =
    if ltb r.current_byte (length r.nvlist)
    then (do
      val ← byte_at r.nvlist r.current_byte
      ok (val, record r { current_byte = r.current_byte + 1 }))
    else err invalid_data

-- Behind the end of the input `n` is negative, which copies nothing and goes back to the end.
unfoldable pub read : ℕ → Reader → Result (Bytes × Reader)
unfolding copy_loop
read n r =
    if ltb (r.current_byte + n) (length r.nvlist)
    then (do
      bs ← copy_loop n r.nvlist r.current_byte
      ok (bs, record r { current_byte = r.current_byte + n }))
    else (do
      bs ← copy_loop (length r.nvlist - r.current_byte) r.nvlist r.current_byte
      ok (bs, record r { current_byte = length r.nvlist }))

unfoldable pub skip_n : ℕ → Reader → Reader
skip_n n r = record r { current_byte = r.current_byte + n }

-- `binary.Read` of an integer of `n` bytes, in a byte order that may be nil.
unfoldable pub read_int_in : Option ByteOrder → ℕ → Reader → Result (ℕ × Reader)
read_int_in none n r = panic nil_byte_order
read_int_in (some o) n r = do (bs, r) ← read_full read n r; ok (get o bs, r)

unfoldable pub read_int : ℕ → Reader → Result (ℕ × Reader)
unfolding read_int_in
read_int n r = read_int_in r.endianness n r

unfoldable pub set_encoding : ℕ → Reader → Result Reader
set_encoding b r =
    if b == 0
    then ok (record r { encoding = native })
    else if b == 1
    then ok (record r { encoding = xdr })
    else err invalid_encoding

unfoldable pub set_endianness : ℕ → Reader → Result Reader
set_endianness b r =
    if b == 0
    then ok (record r { endianness = some big })
    else if b == 1
    then ok (record r { endianness = some little })
    else err invalid_endianess

unfoldable pub read_nv_header : Reader → Result Reader
read_nv_header r = do
  (encoding, r) ← read_byte r
  r ← set_encoding encoding r
  (endiness, r) ← read_byte r
  r ← set_endianness endiness r
  (version, r) ← read_int 4 (skip_n 2 r)
  (flags, r) ← read_int 4 (record r { version = version })
  ok (record r { flags = flags })

abbrev pub new_reader : Bytes → Reader
new_reader input = record {
  nvlist = input;
  current_byte = 0;
  endianness = none;
  encoding = native;
  flags = 0;
  version = 0;
}
