-- ===== src/Decoder/PairReader.antt =====
-- nvlist/decode.go: nvPairReader and its methods.
use go_zfs.Base.{ℕ, zero, suc, ◌+◌, ◌-◌, ◌%◌, Option, some, none, Bytes, leb, ◌==◌, if◌then◌else◌}
use go_zfs.Wire.{ByteOrder, get}
use go_zfs.Result.{Result, ok, err, panic, ◌>>=◌, invalid_data, nil_byte_order}
use go_zfs.Decoder.Slices.{byte_at, slice, copy_loop, read_full}
use go_zfs.Decoder.Reader.{Reader, Encoding, native, xdr}

-- Of the `nvlist` that it points to it uses the bytes, the byte order and the encoding, which stay.
pub record PairReader : Type 0 where
  pub nvlist : Reader
  pub start_byte : ℕ
  pub size_bytes : ℕ
  pub current_byte : ℕ

-- `startByte + sizeBytes`
abbrev pub end_byte : PairReader → ℕ
end_byte p = p.start_byte + p.size_bytes

unfoldable pub read_byte : PairReader → Result (ℕ × PairReader)
unfolding byte_at
read_byte p =
    if leb p.current_byte (end_byte p)
    then (do
      val ← byte_at p.nvlist.nvlist p.current_byte
      ok (val, record p { current_byte = p.current_byte + 1 }))
    else err invalid_data

-- The loop with `rounds` bytes to go before `currentByte` passes the end.
unfoldable pub read_bytes_loop : ℕ → ℕ → ℕ → PairReader → Result (Bytes × PairReader)
unfolding byte_at slice
read_bytes_loop zero start delim p = err invalid_data
read_bytes_loop (suc rounds) start delim p = do
  b ← byte_at p.nvlist.nvlist p.current_byte
  let more = read_bytes_loop rounds start delim (record p { current_byte = p.current_byte + 1 })
  if b == delim
      then (do
        val ← slice p.nvlist.nvlist start (p.current_byte + 1 - start)
        ok (val, record p { current_byte = p.current_byte + 1 }))
      else more

-- The bytes up to `delim`, which is the last of them.
unfoldable pub read_bytes : ℕ → PairReader → Result (Bytes × PairReader)
unfolding read_bytes_loop
read_bytes delim p = read_bytes_loop (end_byte p + 1 - p.current_byte) p.current_byte delim p

unfoldable pub read_n : ℕ → PairReader → Result (Bytes × PairReader)
unfolding slice
read_n n p =
    if leb (p.current_byte + n) (end_byte p)
    then (do
      val ← slice p.nvlist.nvlist p.current_byte n
      ok (val, record p { current_byte = p.current_byte + n }))
    else err invalid_data

-- Behind the end of the pair `n` is negative, which copies nothing and goes back to the end.
unfoldable pub read : ℕ → PairReader → Result (Bytes × PairReader)
unfolding copy_loop
read n p =
    if leb (p.current_byte + n) (end_byte p)
    then (do
      bs ← copy_loop n p.nvlist.nvlist p.current_byte
      ok (bs, record p { current_byte = p.current_byte + n }))
    else (do
      bs ← copy_loop (end_byte p - p.current_byte) p.nvlist.nvlist p.current_byte
      ok (bs, record p { current_byte = end_byte p }))

-- `binary.Read` of `n` bytes, in a byte order that may be nil: what `decode` makes of them.
unfoldable pub read_in {ℓ} :
    {A : Type ℓ}
    → (ByteOrder → Bytes → A)
    → Option ByteOrder
    → ℕ
    → PairReader
    → Result (A × PairReader)
read_in decode none n p = panic nil_byte_order
read_in decode (some o) n p = do (bs, p) ← read_full read n p; ok (decode o bs, p)

-- `readInt` of an integer of `n` bytes.
unfoldable pub read_int : ℕ → PairReader → Result (ℕ × PairReader)
unfolding read_in
read_int n p = read_in get p.nvlist.endianness n p

abbrev alignment : Encoding → ℕ
alignment native = 8
alignment xdr = 4

unfoldable pub skip_to_align : PairReader → PairReader
skip_to_align p =
    let n = alignment p.nvlist.encoding in
    let off = (p.current_byte - p.start_byte) % n in
    if off == 0 then p else record p { current_byte = p.current_byte + (n - off) }

unfoldable pub skip_n : ℕ → PairReader → PairReader
skip_n n p = record p { current_byte = p.current_byte + n }
