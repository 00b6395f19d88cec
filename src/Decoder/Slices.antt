-- ===== src/Decoder/Slices.antt =====
-- nvlist/decode.go: how the readers take bytes out of the input, and `io.ReadFull` on top of them.
use go_zfs.Base.{
  ℕ, zero, suc, ◌+◌, [], ◌∷◌, some, none, Bytes, length, take, drop, get_elem?, ltb, leb,
  if◌then◌else◌,
}
use go_zfs.Result.{Result, ok, err, panic, ◌>>=◌, eof, unexpected_eof, index_out_of_range}

-- `nvlist[i]`
unfoldable pub byte_at : Bytes → ℕ → Result ℕ
byte_at bs i = elim (get_elem? bs i) [ some b ↦ ok b | none ↦ panic index_out_of_range ]

-- `nvlist[i : i + n]`. Go would allow it up to the capacity of the slice; here the length is the bound.
unfoldable pub slice : Bytes → ℕ → ℕ → Result Bytes
slice bs i n = if leb (i + n) (length bs) then ok (take n (drop i bs)) else panic index_out_of_range

-- The loop that copies `n` bytes from `i` on.
unfoldable pub copy_loop : ℕ → Bytes → ℕ → Result Bytes
unfolding byte_at
copy_loop zero bs i = ok []
copy_loop (suc n) bs i = do b ← byte_at bs i; rest ← copy_loop n bs (i + 1); ok (b ∷ rest)

-- `io.ReadFull` on a buffer of `n` bytes. The `Read` methods fall short only with io.EOF, so that
-- it makes one call at most.
unfoldable pub read_full {ℓ} :
    {R : Type ℓ} → (ℕ → R → Result (Bytes × R)) → ℕ → R → Result (Bytes × R)
read_full read zero r = ok ([], r)
read_full read (suc n) r = do
  (bs, r) ← read (suc n) r
  if leb (suc n) (length bs)
      then ok (bs, r)
      else (if ltb 0 (length bs) then err unexpected_eof else err eof)
